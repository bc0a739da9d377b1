-- ===== src/Prune/Wait/Caught.antt =====
-- Which exceptions `_wait_for_task` ends in.
use suburban_soc.Base.{
  ℕ, zero, suc, ◌+◌, ◌≡◌, refl, Bool, true, false, Option, none, some, nat_eq, string_eq,
  if◌then◌else◌,
}
use suburban_soc.Prune.{
  Answer, lost, replied, unknown, task_failed, still_running, http, runtime, Result, raised,
  is_error_status, Report, Task, Polls, Caught,
}
use suburban_soc.Prune.Wait.{
  Setting, patience, Looked, ended, unsettled, look, of_response, of_task, of_exception, of_body,
  settle, poll_from, wait_for_task,
}
use suburban_soc.Prune.Wait.Ends.{poll_from_total}

abbrev Settles : Looked → Type 0
Settles (ended r) = Caught r
Settles (unsettled why) = Unit

of_status-Settles :
    (s : ℕ) (again : Bool) → Settles (if again then unsettled unknown else ended (raised (http s)))
of_status-Settles s true = tt
of_status-Settles s false = refl

of_response-Caught : (r : Option Report) → Caught (of_response r)
unfolding of_response
of_response-Caught none = refl
of_response-Caught (some r) = tt

of_task-Settles : (t : Task) → Settles (of_task t)
unfolding of_task
of_task-Settles t = branches t.completed t.has_error
  where
    branches :
        (completed has_error : Bool)
        → Settles (
            if completed
            then ended (if has_error then raised (runtime task_failed) else of_response t.response)
            else unsettled still_running)
    branches true true = refl
    branches true false = of_response-Caught t.response
    branches false e = tt

of_replied-Settles :
    (s : ℕ) (b : Option Task) (failed : Bool)
    → Settles (if failed then of_exception (http s) else of_body b)
unfolding of_exception of_body
of_replied-Settles s b true = of_status-Settles s _
of_replied-Settles s none false = tt
of_replied-Settles s (some t) false = of_task-Settles t

look-Settles : (a : Answer Task) → Settles (look a)
unfolding look
look-Settles lost = tt
look-Settles (replied s b) = of_replied-Settles s b (is_error_status s)

settle-Caught :
    (l : Looked) (late : Bool) (rest : Option (Result Report)) (r : Result Report)
    → Settles l
    → (rest ≡ some r → Caught r)
    → settle l late rest ≡ some r
    → Caught r
settle-Caught (ended e) late rest r s h p = let same : r ≡ e = cc in rw same s
settle-Caught (unsettled why) true rest r s h p =
    let same : r ≡ raised (runtime why) = cc in rw same refl
settle-Caught (unsettled why) false rest r s h p = h p

poll_from-Caught :
    (p : Polls) (interval deadline fuel k now : ℕ) (r : Result Report)
    → poll_from p interval deadline fuel k now ≡ some r
    → Caught r
unfolding poll_from
poll_from-Caught p interval deadline zero k now r e = cc
poll_from-Caught p interval deadline (suc fuel) k now r e =
    settle-Caught (look (p.answers (now + p.took k))) _ _ r (look-Settles _)
      (poll_from-Caught p interval deadline fuel (k + 1) (now + p.took k + interval) r) e

pub wait_for_task-Caught :
    (timeout interval : Setting) (p : Polls) → Caught (wait_for_task (patience timeout interval) p)
wait_for_task-Caught timeout interval p =
    let (r, e, w) = poll_from_total timeout interval p in rw w (poll_from-Caught p _ _ _ 0 0 r e)
