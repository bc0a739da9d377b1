-- ===== src/Prune/Checkpoints.antt =====
-- scripts/setup/ai_agent/compact_agent_checkpoints.py: checkpoint and claim documents of a terminal
-- phase that are too old, deleted from the indices of one tenant or of all.
pub mod Survives
use suburban_soc.Base.{
  ℕ, ◌+◌, ◌*◌, ◌<◌, String, Bool, not, ◌||◌, List, [], ◌∷◌, ◌++◌, ◌==◌, nat_eq, string_eq,
  if◌then◌else◌,
}
use Prim.Native.String.{◌++◌ as ◌<>◌}
use suburban_soc.Tenant.{matches_tenant_re}
use suburban_soc.Prune.{
  ◌>>=◌, ◌>>◌, value_error, Clause, exists, terms, older, Request, count_docs, delete_docs, Run,
  pure, send, unless, Days, positive, Patience,
}
use suburban_soc.Prune.Wait.{wait_for_task}
use suburban_soc.Prune.Intel.{Index, or_zero, task_of, trusted, exit_of}

-- TERMINAL_CHECKPOINT_PHASES and TERMINAL_CLAIM_PHASES
abbrev pub terminal_checkpoint_phases : List String
terminal_checkpoint_phases =
    "NO_ACTION_PROTECTED_ASSET" ∷ "AUTO_ISOLATED" ∷ "EXECUTED" ∷ "ISOLATION_FAILED" ∷ []

abbrev pub terminal_claim_phases : List String
terminal_claim_phases = "RELEASED" ∷ []

-- ALL_TERMINAL_PHASES, in the order of its rows above instead of sorted: a `terms` filter reads no
-- order.
abbrev pub all_terminal_phases : List String
all_terminal_phases = terminal_checkpoint_phases ++ terminal_claim_phases

unfoldable pub validate_tenant_id : String → Run (Unit {0})
validate_tenant_id tenant = unless (not (tenant == "*" || matches_tenant_re tenant)) value_error

unfoldable pub build_query : ℕ → List Clause
build_query n = exists "phase" ∷ terms "phase" all_terminal_phases ∷ older "@timestamp" n ∷ []

abbrev pub index_of : String → String
index_of tenant = "agent-checkpoints-" <> tenant

unfoldable pub started_deletion : Patience → Index → List Clause → Run ℕ
started_deletion c i query = do
  started ← send (delete_docs i.name query) (i.started query)
  id ← task_of started
  report ← ([], wait_for_task c i.polls)
  trusted report

unfoldable pub counted_only : Index → List Clause → Run ℕ
counted_only i query = do
  matched ← send (count_docs i.name query) (i.counted query)
  pure (or_zero matched)

-- The cluster gives what is answered about the index of each name.
unfoldable pub compact :
    Patience → (String → Index) → (tenant : String) (retention : Days) (dry_run : Bool) → Run ℕ
unfolding validate_tenant_id build_query started_deletion counted_only
compact c cluster tenant retention dry_run = do
  n ← positive retention
  validate_tenant_id tenant
  let i = record (cluster (index_of tenant)) { name = index_of tenant }
  (if dry_run then counted_only i (build_query n) else started_deletion c i (build_query n))

unfoldable pub main :
    Patience
    → (String → Index)
    → (tenant : String) (retention : Days) (dry_run : Bool) → List Request × ℕ
unfolding compact
main c cluster tenant retention dry_run =
    let (log, r) = compact c cluster tenant retention dry_run in (log, exit_of r)
