-- ===== src/Slo/Report/Detects.antt =====
-- A claim that one run of slo_metrics.py records, and that is gone when the next one runs.
use suburban_soc.Base.{
  ℕ, ◌*◌, ◌≤◌, String, ◌≡◌, refl, sym, ap, ◌∙◌, ◌≢◌, inl, inr, Bool, true, false, Option, none,
  some, List, [], ◌∷◌, ◌++◌, map, arith, nat_eq, string_eq, if◌then◌else◌, Bool-cases, length,
  select, any,
}
use mathlib.Core.List.{append_assoc}
use suburban_soc.Base.Http.{Answer, replied}
use suburban_soc.Slo.{
  ◌>>=◌, unavailable, Measured, measured, unavailable, ℤ, pos, negsuc, no_data, number, volume,
  Cluster, term, DocRef, Got, Row, entry, read_ok,
}
use suburban_soc.Slo.Counts.{whole}
use suburban_soc.Slo.Claims.{
  cons_some, is_error, unfound, refs, claimed_snapshot, is_claim, usable, vanished_claims_detail,
  vanished_claims,
}
use suburban_soc.Slo.Claims.Vanished.{Looks, vanished_claims_exact}
use suburban_soc.Slo.Report.{
  Settings, Outside, metrics, Sample, Outcome, refused, finished, ended, main, captured,
}
use suburban_soc.Slo.Report.Healthy.{Reaches, Fulfils, exit_zero_iff}

abbrev pub row_of : DocRef → Row
row_of d = record { row_id = some d.id; row_index = some d.index }

cons_some-append :
    (o : Option DocRef) (xs ys : List DocRef) → cons_some o (xs ++ ys) ≡ cons_some o xs ++ ys
cons_some-append none xs ys = refl
cons_some-append (some x) xs ys = refl

refs-middle :
    (xs : List Row) (d : DocRef) (ys : List Row)
    → refs (xs ++ row_of d ∷ ys) ≡ refs xs ++ d ∷ refs ys
unfolding refs
refs-middle [] d ys = refl
refs-middle (x ∷ xs) d ys = rw (refs-middle xs d ys) (cons_some-append _ (refs xs) (d ∷ refs ys))

-- One claim that is not there makes the report longer than zero.
vanished_positive :
    (look : DocRef → Got) (xs : List DocRef) (d : DocRef) (ys : List DocRef)
    → is_claim d ≡ true
    → unfound (look d) ≡ true
    → 1 ≤ length (select (λ x. unfound (look x)) (usable (map entry (xs ++ d ∷ ys))))
unfolding usable
vanished_positive look [] d ys claim gone = rw (claim, gone) (omega arith)
vanished_positive look (x ∷ xs) d ys claim gone =
    ground (arith, vanished_positive look xs d ys claim gone)

-- The captures of a run that sees the claim: the claim is in the sample.
snapshot_holds :
    (later : Cluster) (d : DocRef) (xs ys resolved : List Row)
    → later.searched true 200 (term "phase" "CLAIMED" ∷ [])
      ≡ replied 200 (some (xs ++ row_of d ∷ ys))
    → later.searched false 200 (term "phase" "RESOLVED" ∷ []) ≡ replied 200 (some resolved)
    → claimed_snapshot later ≡ measured (refs xs ++ d ∷ refs (ys ++ resolved))
unfolding claimed_snapshot read_ok
snapshot_holds later d xs ys resolved h k =
    rw (h, k, append_assoc) (ap measured (refs-middle xs d (ys ++ resolved)))

-- A number above a target of zero.
above_zero :
    (n : ℕ) (lower : Bool) (v : ℤ)
    → 1 ≤ n
    → some true ≡ some lower
    → v ≡ pos (1000 * n)
    → ¬ Reaches lower v 0
above_zero n false v p l e h = cc
above_zero n true (negsuc m) p l e h = cc
above_zero n true (pos m) p l e h = ground arith

vanished_unmet :
    (s : Settings) (n : ℕ)
    → s.target "vanished_claims" ≡ 0
    → 1 ≤ n
    → ¬ Fulfils s ("vanished_claims", measured (whole n))
vanished_unmet s n zero_target p (no_data, e, h) = cc
vanished_unmet s n zero_target p (volume v, e, h) = cc
vanished_unmet s n zero_target p (number v, e, inl free) = cc
vanished_unmet s n zero_target p (number v, e, inr (lower, l, reaches)) =
    above_zero n lower v p l (cc) (rw zero_target at reaches)

-- A report that is no measurement, or is not empty.
abbrev Alarming : Measured (List DocRef) → Type 0
Alarming unavailable = Unit
Alarming (measured docs) = 1 ≤ length docs

Alarming-unmet :
    (s : Settings) (m : Measured (List DocRef))
    → s.target "vanished_claims" ≡ 0
    → Alarming m
    → ¬ Fulfils s ("vanished_claims", m >>= λ docs. measured (whole (length docs)))
Alarming-unmet s unavailable zero_target a (r, e, h) = cc
Alarming-unmet s (measured docs) zero_target a h = vanished_unmet s (length docs) zero_target a h

Alarming-if :
    (b : Bool) (docs : List DocRef)
    → 1 ≤ length docs
    → Alarming (if b then unavailable else measured docs)
Alarming-if true docs h = tt
Alarming-if false docs h = h

-- What the second run makes of the first one's sample.
vanished_not_fulfilled :
    (s : Settings) (c : Cluster) (look : DocRef → Got) (d : DocRef) (before behind : List DocRef)
    → Looks c look
    → c.prior_snapshot s.snapshot_age ≡ replied 200 (some (map entry (before ++ d ∷ behind) ∷ []))
    → is_claim d ≡ true
    → unfound (look d) ≡ true
    → s.target "vanished_claims" ≡ 0
    → ¬ Fulfils s ("vanished_claims", vanished_claims c s.snapshot_age)
unfolding vanished_claims
vanished_not_fulfilled s c look d before behind looks prior claim gone zero_target h =
    let claims = usable (map entry (before ++ d ∷ behind)) in
    let exact =
      vanished_claims_exact c look s.snapshot_age (map entry (before ++ d ∷ behind) ∷ []) looks
        prior in
    let alarming : Alarming (vanished_claims_detail c s.snapshot_age) = rw exact (
      Alarming-if (any (λ x. is_error (look x)) claims) (select (λ x. unfound (look x)) claims)
        (vanished_positive look before d behind claim gone)) in
    Alarming-unmet s (vanished_claims_detail c s.snapshot_age) zero_target alarming h

abbrev snapshot_of : Outcome → Option (List DocRef)
snapshot_of (finished sample n e) = sample.snapshot
snapshot_of o = none

ended-snapshot :
    (s : Settings) (later : Cluster) (reply : Answer (Unit {0})) (errors : List String)
    (b : Option (List String)) (sample : Sample) (n : Bool) (e : ℕ)
    → ended s later reply errors b ≡ finished sample n e
    → sample.snapshot ≡ captured (claimed_snapshot later)
unfolding ended
ended-snapshot s later reply errors none sample n e h = cc
ended-snapshot s later reply errors (some bs) sample n e h = sym (ap snapshot_of h)

main-snapshot :
    (s : Settings) (o : Outside) (c later : Cluster) (reply : Answer (Unit {0})) (sample : Sample)
    (n : Bool) (e : ℕ)
    → main s o c later reply ≡ finished sample n e
    → sample.snapshot ≡ captured (claimed_snapshot later)
unfolding main
main-snapshot s o c later reply sample n e h = elim (Bool-cases s.has_password) [
  | inl set ↦ ended-snapshot s later reply _ _ sample n e (rw set at h)
  | inr unset ↦ let h' : refused ≡ finished sample n e = rw unset at h in cc
]

-- A claim whose document one run saw as CLAIMED, and that is gone when the next run looks, makes the
-- next run exit with another status than 0, provided that the first one's sample is the one that the
-- next run finds, and the target of vanished claims is zero. A document that cannot be read counts as
-- gone.
pub deletion_detected :
    (s : Settings) (o o' : Outside) (c later c' later' : Cluster) (reply reply' : Answer (Unit {0}))
    (look : DocRef → Got) (d : DocRef) (xs ys resolved : List Row) (sample : Sample) (n : Bool)
    (e : ℕ)
    → main s o c later reply ≡ finished sample n e
    → later.searched true 200 (term "phase" "CLAIMED" ∷ [])
      ≡ replied 200 (some (xs ++ row_of d ∷ ys))
    → later.searched false 200 (term "phase" "RESOLVED" ∷ []) ≡ replied 200 (some resolved)
    → is_claim d ≡ true
    → ((snapshot : List DocRef)
        → sample.snapshot ≡ some snapshot
        → c'.prior_snapshot s.snapshot_age ≡ replied 200 (some (map entry snapshot ∷ [])))
    → Looks c' look
    → unfound (look d) ≡ true
    → s.target "vanished_claims" ≡ 0
    → (sample' : Sample) (n' : Bool) → main s o' c' later' reply' ≢ finished sample' n' 0
unfolding metrics
deletion_detected s o o' c later c' later' reply reply' look d xs ys resolved sample n e first
      claimed res claim stored looks gone zero_target sample' n' second =
    let held = snapshot_holds later d xs ys resolved claimed res in
    let kept = main-snapshot s o c later reply sample n e first ∙ ap captured held in
    let (set, ok, all, post) = (exit_zero_iff s o' c' later' reply').0 (sample', n', second) in
    vanished_not_fulfilled s c' look d (refs xs) (refs (ys ++ resolved)) looks (stored _ kept) claim
      gone zero_target all.1.1.1.1.1.1.1.1.1.1.1.1.1.0
