-- ===== src/Slo/Report/Healthy.antt =====
-- When `main` exits with 0.
use suburban_soc.Base.{
  ℕ, ◌≤◌, String, ◌≡◌, refl, ap, ◌↔◌, ◌⊎◌, inl, inr, Bool, true, false, Option, none, some, List,
  [], ◌∷◌, arith, nat_eq, string_eq, if◌then◌else◌, Bool-cases, All,
}
use suburban_soc.Slo.{
  Measured, measured, unavailable, ℤ, pos, negsuc, Reading, no_data, number, volume, Cluster,
}
use suburban_soc.Slo.Access.{check_privileges}
use suburban_soc.Base.Http.{Answer}
use suburban_soc.Slo.Report.{
  Settings, Outside, lower_better, breach_if_na, no_target, contains, lower_of, Row, metrics, above,
  below, of_lower, judged, add_breach, breaches, add_error, errors_of, Sample, index_failed,
  exit_code, refused, finished, ended, main,
}

-- On the right side of the target.
abbrev pub Reaches : (lower : Bool) → ℤ → (target : ℕ) → Type 0
Reaches true (pos n) t = n ≤ t
Reaches true (negsuc n) t = Unit
Reaches false (pos n) t = t ≤ n
Reaches false (negsuc n) t = ⊥

abbrev pub Met : Settings → String → Reading → Type 0
Met s name no_data =
    (lower : Bool) × (lower_of lower_better name ≡ some lower)
    × (contains breach_if_na name ≡ false)
Met s name (number v) =
    (lower : Bool) × (lower_of lower_better name ≡ some lower) × Reaches lower v (s.target name)
Met s name (volume v) = ⊥

-- The metric was measured, and it has no target or its value is on the right side of it; where there
-- is nothing to measure, it is not one of those for which this counts as a breach.
abbrev pub Fulfils : Settings → Row → Type 0
Fulfils s (name, m) =
    (r : Reading) × (m ≡ measured r) × ((contains no_target name ≡ true) ⊎ Met s name r)

not_breached :
    (lower : Bool) (v : ℤ) (t : ℕ)
    → (if lower then above v t else below v t) ≡ false
    → Reaches lower v t
not_breached true (pos n) t h = ground arith
not_breached true (negsuc n) t h = tt
not_breached false (pos n) t h = ground arith
not_breached false (negsuc n) t h = cc

breached_not :
    (lower : Bool) (v : ℤ) (t : ℕ)
    → Reaches lower v t
    → (if lower then above v t else below v t) ≡ false
breached_not true (pos n) t h = ground arith
breached_not true (negsuc n) t h = refl
breached_not false (pos n) t h = ground arith
breached_not false (negsuc n) t h = elim h [ ]

module _ (s : Settings) (name : String) where
  of_lower-Met :
      (o : Option Bool) (r : Reading)
      → lower_of lower_better name ≡ o
      → of_lower name (s.target name) o (measured r) ≡ some false
      → Met s name r
  of_lower-Met none r e h = cc
  of_lower-Met (some l) no_data e h = (l, e, cc)
  of_lower-Met (some l) (number v) e h = (l, e, not_breached l v (s.target name) (cc))
  of_lower-Met (some l) (volume v) e h = cc

  judged-Fulfils :
      (r : Reading) → judged s (name, measured r) ≡ some false → Fulfils s (name, measured r)
  unfolding judged
  judged-Fulfils r h = elim (Bool-cases (contains no_target name)) [
    | inl free ↦ (r, refl, inl free)
    | inr aimed ↦ (r, refl, inr (of_lower-Met _ r refl (rw aimed at h)))
  ]

  Met-of_lower :
      (r : Reading)
      → Met s name r
      → of_lower name (s.target name) (lower_of lower_better name) (measured r) ≡ some false
  Met-of_lower no_data (l, e, quiet) = rw e (ap some quiet)
  Met-of_lower (number v) (l, e, reaches) =
      rw e (ap some (breached_not l v (s.target name) reaches))
  Met-of_lower (volume v) h = elim h [ ]

  Fulfils-judged :
      (r : Reading)
      → (contains no_target name ≡ true) ⊎ Met s name r
      → judged s (name, measured r) ≡ some false
  unfolding judged
  Fulfils-judged r (inl free) = rw free refl
  Fulfils-judged r (inr met) = elim (Bool-cases (contains no_target name)) [
    | inl free ↦ rw free refl
    | inr aimed ↦ rw aimed (Met-of_lower r met)
  ]

add_breach-none :
    (name : String) (b : Option Bool) (rest : Option (List String))
    → add_breach name b rest ≡ some []
    → (b ≡ some false) × (rest ≡ some [])
add_breach-none name none rest h = cc
add_breach-none name (some b) none h = cc
add_breach-none name (some true) (some names) h = cc
add_breach-none name (some false) (some names) h = (refl, h)

module _ (s : Settings) where
  breaches-Fulfils :
      (rows : List Row) → breaches s rows ≡ some [] → errors_of rows ≡ [] → All (Fulfils s) rows
  unfolding breaches errors_of
  breaches-Fulfils [] b e = tt
  breaches-Fulfils ((name, unavailable) ∷ rows) b e = cc
  breaches-Fulfils ((name, measured r) ∷ rows) b e =
      let (here, rest) = add_breach-none name (judged s (name, measured r)) (breaches s rows) b in
      (judged-Fulfils s name r here, breaches-Fulfils rows rest e)

  Fulfils-breaches :
      (rows : List Row) → All (Fulfils s) rows → (breaches s rows ≡ some []) × (errors_of rows ≡ [])
  unfolding breaches errors_of
  Fulfils-breaches [] h = (refl, refl)
  Fulfils-breaches ((name, m) ∷ rows) ((r, e, ok), rest) =
      let (b, errors) = Fulfils-breaches rows rest in
      (rw (e, Fulfils-judged s name r ok, b) refl, rw e errors)

exit_zero :
    (bs errors : List String) (failed : Bool)
    → exit_code bs errors failed ≡ 0
    → (bs ≡ []) × (errors ≡ []) × (failed ≡ false)
exit_zero bs (e ∷ errors) failed h = absurd (omega arith)
exit_zero bs [] true h = absurd (omega arith)
exit_zero (b ∷ bs) [] false h = absurd (omega arith)
exit_zero [] [] false h = (refl, refl, refl)

add_error-nil :
    {A : Type 0} (name : String) (m : Measured A) (names : List String)
    → add_error name m names ≡ []
    → ((a : A) × (m ≡ measured a)) × (names ≡ [])
add_error-nil name (measured a) names h = ((a, refl), h)
add_error-nil name unavailable names h = cc

ended-zero :
    (s : Settings) (later : Cluster) (reply : Answer (Unit {0})) (errors : List String)
    (b : Option (List String)) (sample : Sample) (n : Bool)
    → ended s later reply errors b ≡ finished sample n 0
    → (b ≡ some []) × (errors ≡ []) × (index_failed reply ≡ false)
unfolding ended
ended-zero s later reply errors none sample n h = cc
ended-zero s later reply errors (some bs) sample n h =
    let (nb, ne, f) = exit_zero bs errors (index_failed reply) (cc) in (ap some nb, ne, f)

finished_zero :
    (sample : Sample) (n failed : Bool)
    → failed ≡ false
    → (t : Sample) × (m : Bool) × (finished sample n (exit_code [] [] failed) ≡ finished t m 0)
finished_zero sample n failed f = (sample, n, rw f refl)

ended_healthy :
    (s : Settings) (later : Cluster) (reply : Answer (Unit {0}))
    → index_failed reply ≡ false
    → (sample : Sample) × (n : Bool) × (ended s later reply [] (some []) ≡ finished sample n 0)
unfolding ended
ended_healthy s later reply f = finished_zero _ _ (index_failed reply) f

-- `main` exits with 0 exactly when a password is set, the reader's privileges are confirmed, the
-- sample was stored, every metric was measured, and every metric outside NO_TARGET passes: its
-- value is on the right side of its target, or there is nothing to measure and it is not in
-- BREACH_IF_NA. What a metric of NO_TARGET measures has no influence.
pub exit_zero_iff :
    (s : Settings) (o : Outside) (c later : Cluster) (reply : Answer (Unit {0}))
    → ((sample : Sample) × (n : Bool) × (main s o c later reply ≡ finished sample n 0)) ↔ (
        (s.has_password ≡ true)
        × (check_privileges c o.role ≡ measured tt)
        × All (Fulfils s) (metrics s o c)
        × (index_failed reply ≡ false))
unfolding main
exit_zero_iff s o c later reply = (forward, backward)
  where
    rows : List Row
    rows = metrics s o c

    forward :
        (sample : Sample) × (n : Bool) × (main s o c later reply ≡ finished sample n 0)
        → (s.has_password ≡ true)
          × (check_privileges c o.role ≡ measured tt)
          × All (Fulfils s) (metrics s o c)
          × (index_failed reply ≡ false)
    forward (sample, n, h) = elim (Bool-cases s.has_password) [
      | inl yes_set ↦
          let (b, errors, kept) = ended-zero s later reply _ _ sample n (rw yes_set at h) in
          let ((u, ok), none_left) =
            add_error-nil "slo_metrics_reader_privileges" (check_privileges c o.role)
              (errors_of rows) errors in
          (yes_set, ok, breaches-Fulfils s rows b none_left, kept)
      | inr unset ↦ let h' : refused ≡ finished sample n 0 = rw unset at h in cc
    ]

    backward :
        (s.has_password ≡ true)
          × (check_privileges c o.role ≡ measured tt)
          × All (Fulfils s) (metrics s o c)
          × (index_failed reply ≡ false)
        → (sample : Sample) × (n : Bool) × (main s o c later reply ≡ finished sample n 0)
    backward (p, q, r, f) =
        let (b, e) = Fulfils-breaches s rows r in
        let whole : main s o c later reply ≡ ended s later reply [] (some []) =
          rw (p, q, b, e) refl in
        rw whole (ended_healthy s later reply f)
