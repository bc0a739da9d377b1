-- ===== src/Agent/Masking/Hides.antt =====
-- A masked hardware address shows its manufacturer and its separators, and nothing else.
use Prim.Native.Char.{Char}
use Prim.Native.String.{[], ◌∷◌}
use suburban_soc.Base.{
  ℕ, zero, suc, String, Bool, true, false, ◌≡◌, refl, sym, ap, ◌∙◌, arith, Option, none, some, List,
  [] as done, ◌∷◌ as ◌then◌, ◌==◌, nat_eq, string_eq, if◌then◌else◌, inl, inr, Bool-cases,
  eq_of_beq,
}
use suburban_soc.Base.Text.{glue}
use suburban_soc.Agent.Masking.{
  is_hex, is_separator, at_end, matches_mac, is_valid_mac, find_tokens, join, blank_tokens,
  mask_mac, mask_ip, Address, mask_notify_ioc, notify_mac, notify_excluded,
}

-- A text that `([0-9A-Fa-f]{2}[:-]){n}[0-9A-Fa-f]{2}$` matches, taken apart.
data Groups : ℕ → String → Type 0 where
  last :
      (a b : Char) (s : String)
      → is_hex a ≡ true
      → is_hex b ≡ true
      → at_end s ≡ true
      → Groups 0 (a ∷ b ∷ s)
  more :
      (n : ℕ) (a b c : Char) (s : String)
      → is_hex a ≡ true
      → is_hex b ≡ true
      → is_separator c ≡ true
      → Groups n s
      → Groups (suc n) (a ∷ b ∷ c ∷ s)

groups : (n : ℕ) (s : String) → matches_mac n s ≡ true → Groups n s
unfolding matches_mac
groups zero [] h = cc
groups zero (a ∷ []) h = cc
groups zero (a ∷ b ∷ s) h = last a b s (ground (arith, h)) (ground (arith, h)) (ground (arith, h))
groups (suc n) [] h = cc
groups (suc n) (a ∷ []) h = cc
groups (suc n) (a ∷ b ∷ []) h = cc
groups (suc n) (a ∷ b ∷ c ∷ s) h =
    more n a b c s (ground (arith, h)) (ground (arith, h)) (ground (arith, h))
      (groups n s (ground (arith, h)))

hex-pair :
    (a b : Char) (s : String)
    → is_hex a ≡ true
    → is_hex b ≡ true
    → find_tokens (a ∷ b ∷ s) ≡ ((a ∷ b ∷ []) then find_tokens s)
unfolding find_tokens
hex-pair a b s h k = rw (h, k) refl

not-hex-separator : (c : Char) → is_separator c ≡ true → is_hex c ≡ false
unfolding is_hex is_separator
not-hex-separator c h = ground arith

separator-token :
    (c d : Char) (s : String)
    → is_separator c ≡ true
    → find_tokens (c ∷ d ∷ s) ≡ ((c ∷ []) then find_tokens (d ∷ s))
unfolding find_tokens
separator-token c d s h = rw (not-hex-separator c h, h) refl

at_end-tokens : (s : String) → at_end s ≡ true → find_tokens s ≡ done
unfolding at_end find_tokens is_separator
at_end-tokens [] h = refl
at_end-tokens (c ∷ []) h = ground (arith, h)
at_end-tokens (c ∷ d ∷ s) h = cc

group-tokens :
    (n : ℕ) (a b c : Char) (s : String)
    → is_hex a ≡ true
    → is_hex b ≡ true
    → is_separator c ≡ true
    → Groups n s
    → find_tokens (a ∷ b ∷ c ∷ s) ≡ ((a ∷ b ∷ []) then (c ∷ []) then find_tokens s)
group-tokens zero a b c _ h k l (last d e s _ _ _) =
    hex-pair a b (c ∷ d ∷ e ∷ s) h k ∙ ap (λ r. (a ∷ b ∷ []) then r) (separator-token c d (e ∷ s) l)
group-tokens (suc n) a b c _ h k l (more _ d e f s _ _ _ _) =
    hex-pair a b (c ∷ d ∷ e ∷ f ∷ s) h k
    ∙ ap (λ r. (a ∷ b ∷ []) then r) (separator-token c d (e ∷ f ∷ s) l)

-- The tokens of a matched text, counted from its groups.
group_tokens : (n : ℕ) (s : String) → Groups n s → List String
group_tokens n s (last a b _ _ _ _) = (a ∷ b ∷ []) then done
group_tokens n s (more m a b c rest _ _ _ g) = (a ∷ b ∷ []) then (c ∷ []) then group_tokens m rest g

tokens-exact : (n : ℕ) (s : String) (g : Groups n s) → find_tokens s ≡ group_tokens n s g
unfolding group_tokens
tokens-exact n s (last a b rest h k l) =
    hex-pair a b rest h k ∙ ap (λ r. (a ∷ b ∷ []) then r) (at_end-tokens rest l)
tokens-exact n s (more m a b c rest h k l g) =
    group-tokens m a b c rest h k l g
    ∙ ap (λ r. (a ∷ b ∷ []) then (c ∷ []) then r) (tokens-exact m rest g)

abbrev pub take : ℕ → String → String
take zero s = []
take (suc n) [] = []
take (suc n) (c ∷ s) = c ∷ take n s

abbrev pub drop : ℕ → String → String
drop zero s = s
drop (suc n) [] = []
drop (suc n) (c ∷ s) = drop n s

-- The first three octets with their separators, and "xx" for the others.
abbrev pub oui_only : String → String
oui_only mac =
    glue (take 9 mac)
      (glue "xx" (glue (take 1 (drop 11 mac)) (glue "xx" (glue (take 1 (drop 14 mac)) "xx"))))

blank-Groups :
    (s : String) (g : Groups 5 s)
    → elim (blank_tokens (group_tokens 5 s g)) as (λ _. Option String) [
      | none ↦ none
      | some tokens ↦ some (join tokens)
    ]
      ≡ some (oui_only s)
unfolding group_tokens blank_tokens join
blank-Groups s
      (more _ a b c _ _ _ _ (
        more _ d e f _ _ _ _ (
          more _ g h i _ _ _ _ (more _ j k l _ _ _ _ (more _ m n o _ _ _ _ (last p q r _ _ _)))))) =
    refl

mask_mac-exact : (mac : String) → is_valid_mac mac ≡ true → mask_mac mac ≡ some (oui_only mac)
unfolding mask_mac is_valid_mac
mask_mac-exact mac valid =
    let g = groups 5 mac valid in rw (valid, tokens-exact 5 mac g) (blank-Groups mac g)

if-true : {A : Type 0} (b : Bool) (x y : A) → b ≡ true → (if b then x else y) ≡ x
if-true b x y h = rw h refl

not-valid-empty : is_valid_mac "" ≡ true → ⊥
unfolding is_valid_mac
not-valid-empty h = cc

mask_notify_ioc-exact :
    (ip_address : String → Option Address) (value : String)
    → is_valid_mac value ≡ true
    → mask_notify_ioc ip_address value ≡ some (oui_only value)
unfolding mask_notify_ioc
mask_notify_ioc-exact ip_address value valid = elim (Bool-cases (value == "")) [
  | inl empty ↦ absurd (not-valid-empty (ap is_valid_mac (sym (eq_of_beq value "" empty)) ∙ valid))
  | inr set ↦ rw set (
      if-true (is_valid_mac value) (mask_mac value) (some (mask_ip ip_address value)) valid
      ∙ mask_mac-exact value valid)
]

-- What `act` puts into its notifications for a hardware address, as the target's or as the excluded
-- one: the address itself if NOTIFY_INCLUDE_RAW_IOCS is set, and otherwise its first three octets and
-- its separators, with "xx" for the other three.
pub oui_shown :
    (include_raw : Bool) (ip_address : String → Option Address) (value : String)
    → is_valid_mac value ≡ true
    → (notify_mac include_raw value ≡ some (if include_raw then value else oui_only value))
      × (notify_excluded include_raw ip_address value
          ≡ some (if include_raw then value else oui_only value))
unfolding notify_mac notify_excluded
oui_shown true ip_address value valid = (refl, refl)
oui_shown false ip_address value valid =
    (mask_mac-exact value valid, mask_notify_ioc-exact ip_address value valid)
