-- ===== src/Tests/Prune.antt =====
-- Runs of the compactions of threat intelligence and of checkpoints, at concrete answers.
use suburban_soc.Base.{
  ℕ, ◌≤◌, ◌<◌, String, ◌≡◌, refl, ◌⊎◌, true, false, none, some, List, [], ◌∷◌, ◌++◌, arith, ltb,
  nat_eq, string_eq, if◌then◌else◌, length, count, All,
}
use suburban_soc.Prune.{
  Answer, replied, Reason, unknown, Raised, runtime, ok, raised, Clause, older, delete_docs, Days,
  days, Report, Task, Polls,
}
use suburban_soc.Prune.Wait.{
  unset, number, patience, look, unsettled, ended, poll_from, wait_for_task, env_float,
}
use suburban_soc.Prune.Wait.Ends.{wait_for_task-returns}
use suburban_soc.Prune.Intel.{Index, build_query, trusted, compact_index, compact}
use suburban_soc.Prune.Intel.Guarded.{Counts, delete_guarded, Few}
use suburban_soc.Prune.Intel.Apart.{compact_apart, joined}
use suburban_soc.Prune.Checkpoints as checkpoints
use suburban_soc.Prune.Checkpoints.Survives.{compact-Spares, Spares}

abbrev report : Report
report = record { deleted = 3; timed_out = false; failures = 0 }

abbrev finished : Answer Task
finished =
    replied 200 (some (record { completed = true; has_error = false; response = some report }))

abbrev unavailable : Answer Task
unavailable = replied 503 none

-- Unavailable for four seconds, then finished; each poll takes a quarter of a second.
abbrev polls : Polls
polls = record { answers = λ t. if ltb t 4_000 then unavailable else finished; took = λ k. 250 }

waits : wait_for_task (patience unset unset) polls ≡ ok report
unfolding wait_for_task poll_from look patience env_float
waits = refl

gives_up : wait_for_task (patience (number 1_000) unset) polls ≡ raised (runtime unknown)
unfolding wait_for_task poll_from look patience env_float
gives_up = refl

early : (t : ℕ) → t < 4_000 → (why : Reason) × (look (polls.answers t) ≡ unsettled why)
unfolding look
early t h = let before : ltb t 4_000 ≡ true = ground arith in (unknown, rw before refl)

late : (t : ℕ) → 4_000 ≤ t → look (polls.answers t) ≡ ended (ok report)
unfolding look
late t h = let after : ltb t 4_000 ≡ false = ground arith in rw after refl

wait_for_task-returns_example : wait_for_task (patience unset unset) polls ≡ ok report
unfolding patience env_float
wait_for_task-returns_example =
    wait_for_task-returns unset unset polls 4_000 (ok report) (omega arith) early late

-- Twenty documents, five of them older than 90 days.
abbrev ages : List ℕ
ages = 1 ∷ 2 ∷ 3 ∷ 4 ∷ 5 ∷ 6 ∷ 7 ∷ 8 ∷ 9 ∷ 10 ∷ 11 ∷ 12 ∷ 13 ∷ 14 ∷ 15 ∷ 91 ∷ 92 ∷ 93 ∷ 94 ∷ 95 ∷ []

abbrev answer : List Clause → ℕ
answer (older f n ∷ q) = count (ltb n) ages
answer q = length ages

abbrev intel : String → Index
intel name = record {
  name = name;
  counted = λ q. replied 200 (some (some (answer q)));
  started = λ q. replied 200 (some (some "node:1"));
  polls = polls;
}

intel-Counts : (name field : String) → Counts (intel name) field ages
unfolding build_query
intel-Counts name field = record { matched = λ n c e. cc; total = λ c e. cc }

delete_guarded_example :
    (n : ℕ) × (days 90 ≡ days n)
    × (0 < n)
    × (false ≡ false)
    × ((false ≡ true) ⊎ Few (count (ltb n) ages) (length ages))
unfolding compact_index
delete_guarded_example =
    delete_guarded (patience unset unset) (intel "threat-intel-indicators") "@timestamp" ages
      (intel-Counts "threat-intel-indicators" "@timestamp") (days 90) false false refl

zero_days_refused :
    compact_index
      (patience unset unset)
      (intel "threat-intel-meta")
      "@timestamp"
      (days 0)
      false
      false
    ≡ ([], raised Raised.value_error)
unfolding compact_index
zero_days_refused = refl

compact_apart_example :
    let c = patience unset unset in
    let a = intel "threat-intel-indicators" in
    let b = intel "threat-intel-meta" in
    let r = compact_index c a "@timestamp" (days 90) false false in
    let r' = compact_index c b "@timestamp" (days 90) false false in
    (compact c a b (days 90) false false ≡ (r.0 ++ r'.0, joined a.name b.name r.1 r'.1))
    × (compact c a b (days 0) false false ≡ ([], raised Raised.value_error))
    × (compact c a b Days.no_integer false false ≡ ([], raised Raised.value_error))
compact_apart_example =
    compact_apart unset unset (intel "threat-intel-indicators") (intel "threat-intel-meta") 89 false
      false

compact-Spares_example :
    All
      (Spares "home-smith" 90)
      (checkpoints.compact (patience unset unset) intel "home-smith" (days 90) false).0
compact-Spares_example = compact-Spares (patience unset unset) intel "home-smith" 90 false

compacts :
    checkpoints.compact (patience unset unset) intel "home-smith" (days 90) false
    ≡ (delete_docs "agent-checkpoints-home-smith" (checkpoints.build_query 90) ∷ [], ok 3)
unfolding checkpoints.compact suburban_soc.Tenant.matches_tenant_re wait_for_task patience look
    trusted
compacts = refl
