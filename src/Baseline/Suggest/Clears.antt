-- ===== src/Baseline/Suggest/Clears.antt =====
-- Why a suggested threshold clears the baseline.
use suburban_soc.Base.{
  ℕ, ◌+◌, ◌-◌, ◌*◌, ◌≤◌, ◌<◌, String, ◌≡◌, refl, sym, ◌∙◌, ◌≢◌, ◌⊎◌, inl, inr, true, false, ◌&&◌,
  Option, none, some, List, [], ◌∷◌, ◌++◌, arith, ltb, ◌==◌, nat_eq, string_eq, eq_of_beq,
  if◌then◌else◌, Bool-cases,
}
use native.Mathlib.Nat.{le-div_iff_mul-le}
use text.Mathlib.TextEquality.{eq_iff}
use mathlib.Core.List.{append_assoc, append-nil}
use suburban_soc.Baseline.Window.Densest.{in_window, window_max_exact}
use suburban_soc.Baseline.Suggest.{
  Track, by_src, by_dst, Candidate, Event, Margin, width_of, key_of, by_sid, Series, append_time,
  add_to, series_from, series, maxes, observed, above_margin, suggested, analysis, cmd_analyze,
  refused,
}

-- The address that events are counted under: the source or the destination, as the rule tracks.
abbrev pub tracked : Track → Event → String
tracked by_src e = e.src
tracked by_dst e = e.dst

key_of-tracked : (t : Track) (e : Event) → key_of t e ≡ tracked t e
key_of-tracked by_src e = refl
key_of-tracked by_dst e = refl

-- The times of the events of a rule that stand under an address.
abbrev pub times : Candidate → String → List Event → List ℕ
times c key [] = []
times c key (e ∷ es) =
    let rest = times c key es in
    if e.sid == c.sid && tracked c.track e == key then e.ts ∷ rest else rest

-- What a series holds under a key.
entries : String → Series → List ℕ
entries key [] = []
entries key ((k, ts) ∷ s) = let rest = entries key s in if k == key then ts else rest

entries-append_time :
    (key k : String) (t : ℕ) (s : Series)
    → entries key (append_time k t s)
      ≡ (if k == key then entries key s ++ t ∷ [] else entries key s)
unfolding entries append_time
entries-append_time key k t [] = refl
entries-append_time key k t ((j, ts) ∷ s) =
    ground (arith, eq_iff k key, eq_iff j k, eq_iff j key, entries-append_time key k t s)

module _ (c : Candidate) (key : String) (e : Event) (es : List Event) (all : ℕ → Series) where
  -- An event of another rule is not counted.
  entries-add_to_other :
      (o : Option Candidate)
      → (e.sid == c.sid) ≡ false
      → entries key (add_to o e all c.sid) ++ times c key es
        ≡ entries key (all c.sid) ++ times c key (e ∷ es)
  entries-add_to_other none h = rw h refl
  entries-add_to_other (some d) h = rw h refl

  -- One of this rule is, under its key.
  entries-add_to_own :
      (e.sid == c.sid) ≡ true
      → entries key (add_to (some c) e all c.sid) ++ times c key es
        ≡ entries key (all c.sid) ++ times c key (e ∷ es)
  entries-add_to_own h = elim (Bool-cases (tracked c.track e == key)) [
    | inl mine ↦
        rw
          (
            h,
            key_of-tracked c.track e,
            entries-append_time key (tracked c.track e) e.ts (all c.sid),
            mine,
          )
          (append_assoc (entries key (all c.sid)) (e.ts ∷ []) (times c key es))
    | inr foreign ↦
        rw
          (
            h,
            key_of-tracked c.track e,
            entries-append_time key (tracked c.track e) e.ts (all c.sid),
            foreign,
          )
          refl
  ]

module _ (cands : List Candidate) (c : Candidate) (key : String)
    (known : by_sid cands c.sid ≡ some c) where
  entries-series_from :
      (es : List Event) (all : ℕ → Series)
      → entries key (series_from cands es all c.sid) ≡ entries key (all c.sid) ++ times c key es
  unfolding series_from
  entries-series_from [] all = sym (append-nil _)
  entries-series_from (e ∷ es) all =
      entries-series_from es (add_to (by_sid cands e.sid) e all)
      ∙ (elim (Bool-cases (e.sid == c.sid)) [
        | inl own ↦
            let found : by_sid cands e.sid ≡ some c = rw (eq_of_beq e.sid c.sid own) known in
            rw found (entries-add_to_own c key e es all own)
        | inr foreign ↦ entries-add_to_other c key e es all (by_sid cands e.sid) foreign
      ])

  entries-series : (es : List Event) → entries key (series cands es c.sid) ≡ times c key es
  unfolding series entries
  entries-series es = entries-series_from es (λ sid. [])

in_window-le-observed :
    (key : String) (s : Series) (width t : ℕ)
    → in_window (entries key s) width t ≤ observed (maxes width s)
unfolding entries observed maxes
in_window-le-observed key [] width t = omega arith
in_window-le-observed key ((k, ts) ∷ s) width t =
    ground (arith, (window_max_exact ts width).0 t, in_window-le-observed key s width t)

lt-above_margin : (m : Margin) (n : ℕ) → 0 < m.den → m.den ≤ m.num → n < above_margin m n
lt-above_margin m n pos le =
    let enough : n * m.den ≤ n * m.num + (m.den - 1) = grind arith in
    omega (arith, (le-div_iff_mul-le pos).1 enough)

-- A suggestion is not below the shipped threshold, and above what was observed.
suggested_bounds :
    (c : Candidate) (m : Margin) (n : ℕ)
    → 0 < m.den
    → m.den ≤ m.num
    → (c.threshold ≤ suggested c m n) × ((n ≡ 0) ⊎ (n < suggested c m n))
unfolding suggested
suggested_bounds c m n pos le = elim (Bool-cases (n == 0)) [
  | inl none_seen ↦ rw none_seen (omega arith, inl (eq_of_beq n 0 none_seen))
  | inr seen ↦ rw seen (ground arith, inr (ground (arith, lt-above_margin m n pos le)))
]

-- Let `by_sid` find a rule under its sid, and the denominator of the margin be positive. Where
-- `analyze` does not refuse, the threshold that it suggests for the rule is at least the shipped
-- one; and for every address, the source or the destination as the rule tracks, and every window of
-- the rule's length, the events of the rule under that address in that window are none or fewer
-- than the suggestion.
pub suggestion_clears :
    (cands : List Candidate) (c : Candidate) (m : Margin) (missing : List String)
    (events : List Event) (min_days : ℕ)
    → by_sid cands c.sid ≡ some c
    → 0 < m.den
    → cmd_analyze cands m missing events min_days ≢ refused
    → let a = analysis cands events m c in
      (c.threshold ≤ a.suggestion)
      × ((key : String) (t : ℕ)
          → (in_window (times c key events) (width_of c) t ≡ 0)
            ⊎ (in_window (times c key events) (width_of c) t < a.suggestion))
unfolding cmd_analyze analysis
suggestion_clears cands c m missing events min_days known pos ran =
    let n = observed (maxes (width_of c) (series cands events c.sid)) in
    let (kept, beyond) =
      suggested_bounds c m n pos (accepted_margin (Bool-cases (ltb m.num m.den))) in
    (
      kept,
      λ key t.
          let seen : in_window (times c key events) (width_of c) t ≤ n =
            rw (entries-series cands c key known events) at
              (in_window-le-observed key (series cands events c.sid) (width_of c) t) in
          elim beyond [ inl nothing ↦ inl (omega arith) | inr below ↦ inr (omega arith) ],
    )
  where
    accepted_margin : (ltb m.num m.den ≡ true) ⊎ (ltb m.num m.den ≡ false) → m.den ≤ m.num
    accepted_margin (inl small) = absurd (ran (rw small refl))
    accepted_margin (inr large) = ground arith
