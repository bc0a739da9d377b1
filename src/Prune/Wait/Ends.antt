-- ===== src/Prune/Wait/Ends.antt =====
-- Why `_wait_for_task` comes to an end, and with which result.
use suburban_soc.Base.{
  ℕ, zero, suc, ◌+◌, ◌≤◌, ◌<◌, ◌≡◌, refl, inl, inr, Bool, true, false, Option, some, arith, ltb,
  leb, nat_eq, string_eq, Bool-cases,
}
use suburban_soc.Prune.{Reason, runtime, Result, raised, Report, Polls}
use suburban_soc.Prune.Wait.{
  Setting, unset, no_number, number, patience, Looked, ended, unsettled, look, settle, poll_from,
  wait_for_task,
}

settle_late :
    (l : Looked) (rest : Option (Result Report))
    → (r : Result Report) × (settle l true rest ≡ some r)
settle_late (ended r) rest = (r, refl)
settle_late (unsettled why) rest = (raised (runtime why), refl)

settle_early :
    (l : Looked) (late : Bool) (rest : Option (Result Report))
    → (r : Result Report) × (rest ≡ some r)
    → (r : Result Report) × (settle l late rest ≡ some r)
settle_early (ended r) late rest h = (r, refl)
settle_early (unsettled why) true rest h = (raised (runtime why), refl)
settle_early (unsettled why) false rest h = h

module _ (p : Polls) (interval deadline : ℕ) (advances : 1 ≤ interval) where
  -- Fuel for the ticks that are left, and one round more.
  poll_from_ends :
      (fuel k now : ℕ)
      → deadline ≤ now + fuel
      → (r : Result Report) × (poll_from p interval deadline (suc fuel) k now ≡ some r)
  unfolding poll_from
  poll_from_ends zero k now h =
      let late : leb deadline (now + p.took k) ≡ true = ground arith in rw late (settle_late _ _)
  poll_from_ends (suc fuel) k now h =
      settle_early (look (p.answers (now + p.took k))) (leb deadline (now + p.took k)) _
        (poll_from_ends fuel (k + 1) (now + p.took k + interval) (omega arith))

  module _ (done_at : ℕ) (r : Result Report) (soon : done_at ≤ deadline)
      (before : (t : ℕ) → t < done_at → (why : Reason) × (look (p.answers t) ≡ unsettled why))
      (after : (t : ℕ) → done_at ≤ t → look (p.answers t) ≡ ended r) where
    poll_from_returns :
        (fuel k now : ℕ)
        → deadline ≤ now + fuel
        → poll_from p interval deadline (suc fuel) k now ≡ some r
    unfolding poll_from
    poll_from_returns zero k now h = rw (after (now + p.took k) (omega arith)) refl
    poll_from_returns (suc fuel) k now h = elim (Bool-cases (ltb (now + p.took k) done_at)) [
      | inl early ↦
          let (why, e) = before (now + p.took k) (ground arith) in
          let in_time : leb deadline (now + p.took k) ≡ false = ground arith in
          rw (e, in_time) (poll_from_returns fuel (k + 1) (now + p.took k + interval) (omega arith))
      | inr late ↦ rw (after (now + p.took k) (ground arith)) refl
    ]

patience_advances : (timeout interval : Setting) → 1 ≤ (patience timeout interval).interval
unfolding patience
patience_advances timeout unset = omega arith
patience_advances timeout no_number = omega arith
patience_advances timeout (number n) = ground arith

-- A task that finishes within the poll budget is reported: when every answer before `done_at` leaves
-- the matter open, every answer from then on settles it with `r`, and `done_at` is no later than
-- the budget, then the wait ends with `r`, however long a poll takes and whatever finite numbers the settings are.
pub wait_for_task-returns :
    (timeout interval : Setting) (p : Polls) (done_at : ℕ) (r : Result Report)
    → done_at ≤ (patience timeout interval).timeout
    → ((t : ℕ) → t < done_at → (why : Reason) × (look (p.answers t) ≡ unsettled why))
    → ((t : ℕ) → done_at ≤ t → look (p.answers t) ≡ ended r)
    → wait_for_task (patience timeout interval) p ≡ r
unfolding wait_for_task
wait_for_task-returns timeout interval p done_at r soon before after =
    let limit = (patience timeout interval).timeout in
    let one_more : limit + 1 ≡ suc limit = omega arith in
    rw
      (
        one_more,
        poll_from_returns p _ _ (patience_advances timeout interval) done_at r soon before after
            limit 0 0 (omega arith),
      )
      refl

-- Whatever the answers are, and however long each takes, the wait ends.
pub poll_from_total :
    (timeout interval : Setting) (p : Polls)
    → let c = patience timeout interval in
      (r : Result Report) × (poll_from p c.interval c.timeout (c.timeout + 1) 0 0 ≡ some r)
      × (wait_for_task c p ≡ r)
unfolding wait_for_task
poll_from_total timeout interval p =
    let c = patience timeout interval in
    let (r, e) =
      poll_from_ends p c.interval c.timeout (patience_advances timeout interval) c.timeout 0 0
        (omega arith) in
    let one_more : c.timeout + 1 ≡ suc c.timeout = omega arith in
    (r, rw one_more e, rw (one_more, e) refl)
