-- ===== src/Agent/Execution.antt =====
-- `_execute_isolation` and `Agent.execute_approved` of scripts/setup/ai_agent/agent.py. What each
-- call of the checkpoint store comes to is an argument; what the agent does is a list of effects,
-- in the order of the code.
pub mod Once
use suburban_soc.Base.{
  ℕ, String, Bool, true, false, not, Option, none, some, List, [], ◌∷◌, ◌++◌, ◌==◌, nat_eq,
  string_eq, if◌then◌else◌,
}
use suburban_soc.Broker.Exclusion.{Ipaddress}
use suburban_soc.Agent.Excluded.{is_excluded}
use suburban_soc.Agent.Isolation.{Outcome, known, outcome_unknown}

-- The fields of an `AlertContext` that an execution uses.
pub record AlertContext : Type 0 where
  pub tenant_id : String
  pub target_ip : String
  pub target_mac : String

-- A stored context: what `perceive` makes of it, if it makes anything, and its `case_id`.
pub record Context : Type 0 where
  pub perceived : Option AlertContext
  pub case_id : String

-- none is an exception; of the checkpoint, `some none` is one that is missing or has no
-- context. Whether `resolve_claim` raises changes nothing that the method does or returns.
pub record Store : Type 0 where
  pub is_awaiting_approval : Option Bool
  pub claim_approval : Option Bool
  pub read_checkpoint : Option (Option Context)
  pub releases : Bool

pub data Effect : Type 0 where
  claim : Effect
  queue_row : (status : String) → Effect
  dispatch : (attacker_ip tenant mac : String) → Effect
  audit : (event : String) → Effect
  checkpoint : (phase : String) → Effect
  case_comment : (verb : String) → Effect
  close_case : Effect
  resolve : Effect
  release : Effect
  draft : (id : String) → Effect
  notify : (title : String) → Effect
  soar_action : (action : String) → Effect
  health_marker : (event : String) → Effect

-- `AgentResult`: the status code, the status of the response, and whether it says retryable.
pub record AgentResult : Type 0 where
  pub status_code : ℕ
  pub status : String
  pub retryable : Bool

abbrev error : ℕ → AgentResult
error status_code = record { status_code = status_code; status = "error"; retryable = false }

-- The strings of the result: `(phase, queue_status, comment_verb)`; the response's status is
-- "executed" for an approval and the queue's otherwise.
pub phase_of : Outcome → String
phase_of (known true) = "EXECUTED"
phase_of (known false) = "PENDING_APPROVAL"
phase_of (outcome_unknown _) = "PENDING_APPROVAL"

pub queue_status_of : Outcome → String
queue_status_of (known true) = "approved"
queue_status_of (known false) = "isolation_failed"
queue_status_of (outcome_unknown _) = "isolation_unknown"

pub response_status_of : Outcome → String
response_status_of (known true) = "executed"
response_status_of (known false) = "isolation_failed"
response_status_of (outcome_unknown _) = "isolation_unknown"

pub comment_verb_of : Outcome → String
comment_verb_of (known true) = "SUCCEEDED"
comment_verb_of (known false) = "FAILED"
comment_verb_of (outcome_unknown _) = "outcome UNKNOWN — verify manually before retrying"

-- `if case_id:`
pub case_effects : String → Outcome → List Effect
unfolding comment_verb_of
case_effects case_id outcome =
    if case_id == ""
    then []
    else case_comment (comment_verb_of outcome)
      ∷ (elim outcome [ known ok ↦ if ok then close_case ∷ [] else [] | outcome_unknown _ ↦ [] ])

-- The transition of the claim, the last of the writes, and whether the alert can be retried.
pub transition : Store → Outcome → Bool × List Effect
transition store (known true) = (false, resolve ∷ [])
transition store (known false) = (store.releases, release ∷ [])
transition store (outcome_unknown _) = (false, [])

pub finish : Store → String → Outcome → AgentResult × List Effect
unfolding phase_of queue_status_of response_status_of case_effects transition
finish store case_id outcome =
    let (retryable, last) = transition store outcome in
    (
      record { status_code = 200; status = response_status_of outcome; retryable = retryable },
      checkpoint (phase_of outcome) ∷ case_effects case_id outcome
          ++ (queue_row (queue_status_of outcome) ∷ last),
    )

abbrev pub then_do : List Effect → AgentResult × List Effect → AgentResult × List Effect
then_do first (result, effects) = (result, first ++ effects)

module _ (ip : Ipaddress) where
  -- `_execute_isolation`: the outcome, and whether `dispatch_block_via_broker` was called, with what
  -- it comes to as the last argument.
  pub execute_isolation : Option (List String) → AlertContext → Outcome → Outcome × List Effect
  execute_isolation exclusions ctx broker =
      elim (is_excluded ip exclusions ctx.target_ip ctx.target_mac) [
        | some excluded ↦ (known false, [])
        | none ↦ elim (ip.ip_address ctx.target_ip) [
          | none ↦ (known false, [])
          | some _ ↦ (broker, dispatch ctx.target_ip ctx.tenant_id ctx.target_mac ∷ [])
        ]
      ]

  pub isolated : Store → String → Outcome × List Effect → AgentResult × List Effect
  unfolding finish
  isolated store case_id (outcome, effects) = then_do effects (finish store case_id outcome)

  pub of_tenant :
      Store
      → String
      → Option (List String)
      → Outcome
      → String
      → AlertContext
      → AgentResult × List Effect
  unfolding isolated
  of_tenant store tenant_id exclusions broker case_id ctx =
      if not (ctx.tenant_id == tenant_id)
      then (error 500, audit "approve_tenant_mismatch" ∷ [])
      else isolated store case_id (execute_isolation exclusions ctx broker)

  pub with_context :
      Store
      → String
      → Option (List String)
      → Outcome
      → Option (Option Context)
      → AgentResult × List Effect
  unfolding of_tenant
  with_context store tenant_id exclusions broker none = (error 503, [])
  with_context store tenant_id exclusions broker (some none) = (error 500, [])
  with_context store tenant_id exclusions broker (some (some context)) = elim context.perceived [
    | none ↦ (error 500, [])
    | some ctx ↦ of_tenant store tenant_id exclusions broker context.case_id ctx
  ]

  pub claimed_or_not :
      Store → String → Option (List String) → Outcome → Option Bool → AgentResult × List Effect
  unfolding with_context
  claimed_or_not store tenant_id exclusions broker none = (error 503, claim ∷ [])
  claimed_or_not store tenant_id exclusions broker (some false) = (error 409, claim ∷ [])
  claimed_or_not store tenant_id exclusions broker (some true) =
      then_do (claim ∷ queue_row "claimed" ∷ [])
        (with_context store tenant_id exclusions broker store.read_checkpoint)

  pub awaiting_or_not :
      Store → String → Option (List String) → Outcome → Option Bool → AgentResult × List Effect
  unfolding claimed_or_not
  awaiting_or_not store tenant_id exclusions broker none = (error 503, [])
  awaiting_or_not store tenant_id exclusions broker (some false) = (error 409, [])
  awaiting_or_not store tenant_id exclusions broker (some true) =
      claimed_or_not store tenant_id exclusions broker store.claim_approval

  -- `broker` is what `dispatch_block_via_broker` comes to, if it is called.
  unfoldable pub execute_approved :
      Store → String → Option (List String) → Outcome → AgentResult × List Effect
  unfolding awaiting_or_not
  execute_approved store tenant_id exclusions broker =
      awaiting_or_not store tenant_id exclusions broker store.is_awaiting_approval
