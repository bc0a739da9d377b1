-- ===== src/Attack/Pairs/Real.antt =====
-- Which pairs `_technique_tactic_pairs` emits.
use suburban_soc.Base.{
  String, ◌≡◌, refl, sym, ap, ◌⊎◌, inl, inr, Bool, true, false, ◌&&◌, Option, none, some, List, [],
  ◌∷◌, map, arith, ◌==◌, nat_eq, string_eq, beq_refl, eq_of_beq, All-mono, if◌then◌else◌,
  Bool-cases, length, All,
}
use mathlib.Core.Path.{subst}
use suburban_soc.Attack.Tables.{lookup, contains, technique_tactics}
use suburban_soc.Attack.Pairs.{
  Pair, allowed, is_real, all_real, verify_pairs, zip, technique_tactic_pairs,
}

-- ATT&CK lists the technique under the tactic.
abbrev pub Official : Pair → Type 0
Official (t, a) =
    (valid : List String) × (lookup t technique_tactics ≡ some valid) × (contains valid a ≡ true)

-- The table does not have the technique.
abbrev pub Unlisted : Pair → Type 0
Unlisted (t, a) = lookup t technique_tactics ≡ none

allowed_known :
    (o : Option (List String)) (a : String)
    → allowed true o a ≡ true
    → (valid : List String) × (o ≡ some valid) × (contains valid a ≡ true)
allowed_known none a h = cc
allowed_known (some valid) a h = (valid, refl, h)

allowed_any :
    (o : Option (List String)) (a : String)
    → allowed false o a ≡ true
    → ((valid : List String) × (o ≡ some valid) × (contains valid a ≡ true)) ⊎ (o ≡ none)
allowed_any none a h = inr refl
allowed_any (some valid) a h = inl (valid, refl, h)

and-true : (a b : Bool) → (a && b) ≡ true → (a ≡ true) × (b ≡ true)
and-true true b h = (refl, h)
and-true false b h = cc

all_real-All :
    (known : Bool) (ps : List Pair)
    → all_real known ps ≡ true
    → All (λ p. allowed known (lookup p.0 technique_tactics) p.1 ≡ true) ps
unfolding all_real is_real
all_real-All known [] h = tt
all_real-All known ((t, a) ∷ ps) h =
    let (here, rest) =
      and-true (allowed known (lookup t technique_tactics) a) (all_real known ps) h in
    (here, all_real-All known ps rest)

verified :
    (ps qs : List Pair) (known : Bool)
    → verify_pairs ps known ≡ some qs
    → (qs ≡ ps) × All (λ p. allowed known (lookup p.0 technique_tactics) p.1 ≡ true) ps
unfolding verify_pairs
verified ps qs known h = elim (Bool-cases (all_real known ps)) [
  | inl real ↦ let h' : some ps ≡ some qs = rw real at h in (cc, all_real-All known ps real)
  | inr unreal ↦ let h' : none ≡ some qs = rw unreal at h in cc
]

contains-head : (x : String) (xs : List String) → contains (x ∷ xs) x ≡ true
contains-head x xs = rw (beq_refl x) refl

contains-tail :
    (x y : String) (xs : List String) → contains xs y ≡ true → contains (x ∷ xs) y ≡ true
contains-tail x y xs h = ground (arith, h)

contains_all : (xs : List String) → All (λ x. contains xs x ≡ true) xs
contains_all [] = tt
contains_all (x ∷ xs) =
    (contains-head x xs, All-mono (λ y h. contains-tail x y xs h) xs (contains_all xs))

all_of : {xs ys : List String} → ys ≡ xs → All (λ x. contains ys x ≡ true) xs
all_of {xs} e = subst (λ l. All (λ x. contains l x ≡ true) xs) (sym e) (contains_all xs)

-- A pair of two of the tags.
abbrev pub Tagged : (techs tacs : List String) → Pair → Type 0
Tagged techs tacs (t, a) = (contains techs t ≡ true) × (contains tacs a ≡ true)

All-map :
    (P : Pair → Type 0) (f : String → Pair) (xs : List String)
    → All (λ x. P (f x)) xs
    → All P (map f xs)
All-map P f [] h = tt
All-map P f (x ∷ xs) h = (h.0, All-map P f xs h.1)

zip-Tagged : (as' bs : List String) → All (Tagged as' bs) (zip as' bs)
zip-Tagged [] bs = tt
zip-Tagged (a ∷ as') [] = tt
zip-Tagged (a ∷ as') (b ∷ bs) = (
  (contains-head a as', contains-head b bs),
  All-mono (λ p h. (contains-tail a p.0 as' h.0, contains-tail b p.1 bs h.1)) (zip as' bs)
      (zip-Tagged as' bs),
)

firsts-zip : (as' bs : List String) → length as' ≡ length bs → map (λ p. p.0) (zip as' bs) ≡ as'
firsts-zip [] bs h = refl
firsts-zip (a ∷ as') [] h = absurd (omega arith)
firsts-zip (a ∷ as') (b ∷ bs) h = ap (◌∷◌ a) (firsts-zip as' bs (omega arith))

seconds-zip : (as' bs : List String) → length as' ≡ length bs → map (λ p. p.1) (zip as' bs) ≡ bs
seconds-zip [] [] h = refl
seconds-zip [] (b ∷ bs) h = absurd (omega arith)
seconds-zip (a ∷ as') [] h = absurd (omega arith)
seconds-zip (a ∷ as') (b ∷ bs) h = ap (◌∷◌ b) (seconds-zip as' bs (omega arith))

-- Why a pair may be emitted.
abbrev pub Justified : (techs tacs : List String) → Pair → Type 0
Justified techs tacs p =
    Official p ⊎ ((length techs ≡ length tacs) × (Unlisted p ⊎ (length techs ≡ 1)))

-- Each pair is of two tags and may be emitted, and every tag has a pair.
abbrev pub Sound : (techs tacs : List String) → List Pair → Type 0
Sound techs tacs ps =
    All (λ p. Tagged techs tacs p × Justified techs tacs p) ps
    × All (λ t. contains (map (λ p. p.0) ps) t ≡ true) techs
    × All (λ a. contains (map (λ p. p.1) ps) a ≡ true) tacs

All-both : (P Q : Pair → Type 0) (ps : List Pair) → All P ps → All Q ps → All (λ p. P p × Q p) ps
All-both P Q [] h k = tt
All-both P Q (p ∷ ps) h k = ((h.0, k.0), All-both P Q ps h.1 k.1)

map-same :
    (f : String → Pair) (g : Pair → String) (xs : List String)
    → ((x : String) → g (f x) ≡ x)
    → map g (map f xs) ≡ xs
map-same f g [] h = refl
map-same f g (x ∷ xs) h = rw (h x, map-same f g xs h) refl

Justified-known :
    (techs tacs : List String) (ps : List Pair)
    → All (λ p. allowed true (lookup p.0 technique_tactics) p.1 ≡ true) ps
    → All (Justified techs tacs) ps
Justified-known techs tacs ps h =
    All-mono (λ p ok. inl (allowed_known (lookup p.0 technique_tactics) p.1 ok)) ps h

Justified-any :
    (techs tacs : List String) (ps : List Pair)
    → length techs ≡ length tacs
    → All (λ p. allowed false (lookup p.0 technique_tactics) p.1 ≡ true) ps
    → All (Justified techs tacs) ps
Justified-any techs tacs ps e h =
    All-mono
      (λ p ok. elim (allowed_any (lookup p.0 technique_tactics) p.1 ok) [
        | inl official ↦ inl official
        | inr unlisted ↦ inr (e, inl unlisted)
      ])
      ps h

-- One technique for every tactic, and one tactic for every technique.
one_technique :
    (t a : String) (tacs : List String) (qs : List Pair)
    → verify_pairs (map (λ x. (t, x)) (a ∷ tacs)) true ≡ some qs
    → Sound (t ∷ []) (a ∷ tacs) qs
one_technique t a tacs qs h =
    let f : String → Pair = λ x. (t, x) in
    let ps = map f (a ∷ tacs) in
    let (same, ok) = verified ps qs true h in
    subst (Sound (t ∷ []) (a ∷ tacs)) (sym same) (
      All-both (Tagged (t ∷ []) (a ∷ tacs)) (Justified (t ∷ []) (a ∷ tacs)) ps
          (All-map (Tagged (t ∷ []) (a ∷ tacs)) f (a ∷ tacs)
            (All-mono (λ x c. (contains-head t [], c)) (a ∷ tacs) (contains_all (a ∷ tacs))))
          (Justified-known (t ∷ []) (a ∷ tacs) ps ok),
      (contains-head t _, tt),
      all_of (map-same f (λ p. p.1) (a ∷ tacs) (λ x. refl)),
    )

one_tactic :
    (t a : String) (techs : List String) (qs : List Pair)
    → verify_pairs (map (λ x. (x, a)) (t ∷ techs)) true ≡ some qs
    → Sound (t ∷ techs) (a ∷ []) qs
one_tactic t a techs qs h =
    let f : String → Pair = λ x. (x, a) in
    let ps = map f (t ∷ techs) in
    let (same, ok) = verified ps qs true h in
    subst (Sound (t ∷ techs) (a ∷ [])) (sym same) (
      All-both (Tagged (t ∷ techs) (a ∷ [])) (Justified (t ∷ techs) (a ∷ [])) ps
          (All-map (Tagged (t ∷ techs) (a ∷ [])) f (t ∷ techs)
            (All-mono (λ x c. (c, contains-head a [])) (t ∷ techs) (contains_all (t ∷ techs))))
          (Justified-known (t ∷ techs) (a ∷ []) ps ok),
      all_of (map-same f (λ p. p.0) (t ∷ techs) (λ x. refl)),
      (contains-head a _, tt),
    )

by_position :
    (techs tacs : List String) (qs : List Pair)
    → (if length techs == length tacs then verify_pairs (zip techs tacs) false else none) ≡ some qs
    → Sound techs tacs qs
by_position techs tacs qs h = elim (Bool-cases (length techs == length tacs)) [
  | inl equal ↦
      let e = eq_of_beq (length techs) (length tacs) equal in
      let (same, ok) = verified (zip techs tacs) qs false (rw equal at h) in
      rw same (
        All-both (Tagged techs tacs) (Justified techs tacs) (zip techs tacs) (zip-Tagged techs tacs)
            (Justified-any techs tacs (zip techs tacs) e ok),
        all_of (firsts-zip techs tacs e),
        all_of (seconds-zip techs tacs e),
      )
  | inr unequal ↦ let h' : none ≡ some qs = rw unequal at h in cc
]

-- For a rule with techniques and tactics: each pair that is emitted is of two of its tags, and every
-- tag has a pair. ATT&CK lists the pair's technique under its tactic, or there are as many techniques
-- as tactics, and either the table lacks the technique or the rule has one of each.
pub pairs-Sound :
    (t a : String) (techs tacs : List String) (ps : List Pair)
    → technique_tactic_pairs (t ∷ techs) (a ∷ tacs) ≡ some ps
    → Sound (t ∷ techs) (a ∷ tacs) ps
unfolding technique_tactic_pairs
pairs-Sound t a [] [] ps h =
    let same : (t, a) ∷ [] ≡ ps = cc in
    subst (Sound (t ∷ []) (a ∷ [])) same (
      (((contains-head t [], contains-head a []), inr (refl, inr refl)), tt),
      (contains-head t [], tt),
      (contains-head a [], tt),
    )
pairs-Sound t a [] (b ∷ tacs) ps h = one_technique t a (b ∷ tacs) ps h
pairs-Sound t a (u ∷ techs) [] ps h = one_tactic t a (u ∷ techs) ps h
pairs-Sound t a (u ∷ techs) (b ∷ tacs) ps h = by_position (t ∷ u ∷ techs) (a ∷ b ∷ tacs) ps h
