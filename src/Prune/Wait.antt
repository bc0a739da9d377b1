-- ===== src/Prune/Wait.antt =====
-- `_env_float`, `_is_transient_poll_error` and `_wait_for_task` of
-- scripts/setup/ai_agent/compact_threat_intel.py; compact_agent_checkpoints.py has a copy of each.
pub mod Ends
pub mod Caught
use suburban_soc.Base.{
  ℕ, zero, suc, ◌+◌, Bool, true, false, ◌||◌, Option, none, some, ltb, leb, ◌==◌, nat_eq, string_eq,
  if◌then◌else◌,
}
use suburban_soc.Prune.{
  Answer, lost, replied, Reason, task_failed, unconfirmed, unknown, still_running, Raised, http,
  hung, runtime, not_json, connection, Result, ok, raised, is_error_status, Report, Task, Polls,
  Patience,
}

-- A setting: unset, no number, or a number of ticks. The values nan and inf, which `float` reads too,
-- are not among them.
pub data Setting : Type 0 where
  unset no_number : Setting
  number : ℕ → Setting

unfoldable pub env_float : Setting → ℕ → ℕ → ℕ
env_float unset default minimum = default
env_float no_number default minimum = default
env_float (number n) default minimum = if ltb n minimum then minimum else n

-- In milliseconds.
unfoldable pub patience : Setting → Setting → Patience
unfolding env_float
patience timeout interval = record {
  timeout = env_float timeout 300_000 1_000;
  interval = env_float interval 2_000 100;
}

-- Whether an exception of a poll is worth another poll.
unfoldable pub is_transient_poll_error : Raised → Bool
is_transient_poll_error (http s) = s == 502 || s == 503 || s == 504
is_transient_poll_error e = true

-- A poll that decides the wait, or one that does not: then with what is raised at the deadline.
pub data Looked : Type 0 where
  ended : Result Report → Looked
  unsettled : Reason → Looked

of_response : Option Report → Result Report
of_response none = raised (runtime unconfirmed)
of_response (some r) = ok r

of_task : Task → Looked
unfolding of_response
of_task t =
    if t.completed
    then ended (if t.has_error then raised (runtime task_failed) else of_response t.response)
    else unsettled still_running

of_exception : Raised → Looked
unfolding is_transient_poll_error
of_exception e = if is_transient_poll_error e then unsettled unknown else ended (raised e)

of_body : Option Task → Looked
unfolding of_task of_exception
of_body none = of_exception not_json
of_body (some t) = of_task t

unfoldable pub look : Answer Task → Looked
unfolding of_body of_exception
look lost = of_exception connection
look (replied s b) = if is_error_status s then of_exception (http s) else of_body b

-- The end of a round: `late` says that the deadline has passed.
abbrev pub settle : Looked → Bool → Option (Result Report) → Option (Result Report)
settle (ended r) late rest = some r
settle (unsettled why) true rest = some (raised (runtime why))
settle (unsettled why) false rest = rest

-- The `while`, from poll `k` at time `now`; `none` means that the fuel has run out.
unfoldable pub poll_from : Polls → (interval deadline fuel k now : ℕ) → Option (Result Report)
poll_from p interval deadline zero k now = none
poll_from p interval deadline (suc fuel) k now =
    let answered = now + p.took k in
    let rest = poll_from p interval deadline fuel (k + 1) (answered + interval) in
    settle (look (p.answers answered)) (leb deadline answered) rest

abbrev pub or_hung : Option (Result Report) → Result Report
or_hung none = raised hung
or_hung (some r) = r

-- Started at tick 0. Each round lasts a tick at least, so it has fuel for one round in each.
unfoldable pub wait_for_task : Patience → Polls → Result Report
unfolding poll_from
wait_for_task c p = or_hung (poll_from p c.interval c.timeout (c.timeout + 1) 0 0)
