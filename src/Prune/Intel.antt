-- ===== src/Prune/Intel.antt =====
-- scripts/setup/ai_agent/compact_threat_intel.py: documents that are too old, deleted from two
-- indices.
pub mod Guarded
pub mod Apart
use suburban_soc.Base.{
  ℕ, ◌+◌, ◌*◌, String, Bool, not, ◌&&◌, ◌||◌, Option, none, some, List, [], ◌∷◌, ◌++◌, ltb, leb,
  ◌==◌, nat_eq, string_eq, if◌then◌else◌,
}
use suburban_soc.Prune.{
  ◌>>=◌, ◌>>◌, not_json, type_error, is_caught, Answer, too_many, no_task, unclean, several, Raised,
  runtime, not_json, Result, ok, raised, Clause, match_all, older, Request, count_docs, delete_docs,
  Run, pure, throw, send, unless, Days, positive, Report, Polls, Patience,
}
use suburban_soc.Prune.Wait.{wait_for_task}

-- What Elasticsearch answers about one index: to a count of the documents that a filter matches,
-- to a deletion with its task, and to the polls for it.
pub record Index : Type 0 where
  pub name : String
  pub counted : List Clause → Answer (Option ℕ)
  pub started : List Clause → Answer (Option String)
  pub polls : Polls

-- `.get("count", 0)`
abbrev pub or_zero : Option ℕ → ℕ
or_zero none = 0
or_zero (some n) = n

unfoldable pub build_query : String → ℕ → List Clause
build_query date_field n = older date_field n ∷ []

-- BLAST_RADIUS_FRACTION is a half, MIN_DOCS_FOR_BLAST_RADIUS_CHECK is 20.
unfoldable pub over_blast_radius : (matched total : ℕ) → Bool
over_blast_radius matched total = leb 20 total && ltb total (2 * matched)

unfoldable pub within_blast_radius : Index → ℕ → Run (Unit {0})
unfolding over_blast_radius
within_blast_radius i matched = do
  total ← send (count_docs i.name (match_all ∷ [])) (i.counted (match_all ∷ []))
  unless (over_blast_radius matched (or_zero total)) (runtime too_many)

-- `if not task_id`
abbrev pub task_of : Option String → Run String
task_of none = throw (runtime no_task)
task_of (some id) = if id == "" then throw (runtime no_task) else pure id

-- A report is trusted only if it is clean.
unfoldable pub trusted : Report → Run ℕ
trusted r = if ltb 0 r.failures || r.timed_out then throw (runtime unclean) else pure r.deleted

unfoldable pub deletion : Patience → Index → List Clause → Run ℕ
unfolding trusted
deletion c i query = do
  started ← send (delete_docs i.name query) (i.started query)
  id ← task_of started
  report ← ([], wait_for_task c i.polls)
  trusted report

-- The deletion, with the check of the blast radius before it unless `force` is set.
unfoldable pub delete_matched : Patience → Index → List Clause → ℕ → Bool → Run ℕ
unfolding within_blast_radius deletion
delete_matched c i query matched force =
    if ltb 0 matched && not force
    then (do within_blast_radius i matched; deletion c i query)
    else deletion c i query

unfoldable pub compact_index :
    Patience → Index → (date_field : String) (retention : Days) (dry_run force : Bool) → Run ℕ
unfolding delete_matched build_query
compact_index c i date_field retention dry_run force = do
  n ← positive retention
  matched ←
      send (count_docs i.name (build_query date_field n)) (i.counted (build_query date_field n))
  (if dry_run
      then pure (or_zero matched)
      else delete_matched c i (build_query date_field n) (or_zero matched) force)

-- The result of one index, caught: the counts so far and the exceptions so far.
abbrev pub Tally : Type 0
Tally = List (String × ℕ) × List (String × Raised)

abbrev pub noted : String → Result ℕ → Tally → Result Tally
noted name (ok n) (counts, errors) = ok (counts ++ ((name, n) ∷ []), errors)
noted name (raised e) (counts, errors) =
    if is_caught e then ok (counts, errors ++ ((name, e) ∷ [])) else raised e

unfoldable pub over_indices :
    Patience → List Index → (retention : Days) (dry_run force : Bool) → Tally → Run Tally
unfolding compact_index
over_indices c [] retention dry_run force t = pure t
over_indices c (i ∷ is) retention dry_run force t =
    let (log, r) = compact_index c i "@timestamp" retention dry_run force in
    do t' ← (log, noted i.name r t); over_indices c is retention dry_run force t'

-- `exc_type(msg)`: the class of the JSON error wants three arguments, so that this is a TypeError.
abbrev pub reraised : Raised → Raised
reraised not_json = type_error
reraised e = e

-- One exception is raised again in its class; several become one RuntimeError.
abbrev pub concluded : Tally → Run (List (String × ℕ))
concluded (counts, []) = pure counts
concluded (counts, (name, e) ∷ []) = throw (reraised e)
concluded (counts, e ∷ f ∷ errors) = throw (runtime several)

-- TARGET_INDICES is `threat-intel-indicators` and `threat-intel-meta`.
unfoldable pub compact :
    Patience
    → (indicators meta : Index) (retention : Days) (dry_run force : Bool) → Run (List (String × ℕ))
unfolding over_indices
compact c indicators meta retention dry_run force = do
  n ← positive retention
  t ← over_indices c (indicators ∷ meta ∷ []) retention dry_run force ([], [])
  concluded t

-- Every exception that `main` tells apart ends in 1.
abbrev pub exit_of {ℓ} : {A : Type ℓ} → Result A → ℕ
exit_of (ok a) = 0
exit_of (raised e) = 1

unfoldable pub main :
    Patience
    → (indicators meta : Index) (retention : Days) (dry_run force : Bool) → List Request × ℕ
unfolding compact
main c indicators meta retention dry_run force =
    let (log, r) = compact c indicators meta retention dry_run force in (log, exit_of r)
