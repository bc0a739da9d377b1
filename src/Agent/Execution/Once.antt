-- ===== src/Agent/Execution/Once.antt =====
-- What an approved execution dispatches, and when it gives its claim back.
use suburban_soc.Base.{
  ℕ, String, ◌≡◌, refl, inl, inr, Bool, true, false, ◌&&◌, Option, none, some, List, [], ◌∷◌, arith,
  ◌==◌, nat_eq, string_eq, if◌then◌else◌, Bool-cases, Option-cases, any, count,
}
use suburban_soc.Broker.Exclusion.{Ipaddress}
use suburban_soc.Agent.Excluded.{is_excluded}
use suburban_soc.Agent.Isolation.{Outcome, known, outcome_unknown}
use suburban_soc.Agent.Execution.{
  AlertContext, Context, Store, Effect, dispatch, resolve, release, AgentResult, case_effects,
  transition, finish, then_do, execute_isolation, isolated, of_tenant, with_context, claimed_or_not,
  awaiting_or_not, execute_approved,
}

abbrev pub is_dispatch : Effect → Bool
is_dispatch (dispatch _ _ _) = true
is_dispatch _ = false

abbrev pub is_release : Effect → Bool
is_release release = true
is_release _ = false

abbrev pub is_resolve : Effect → Bool
is_resolve resolve = true
is_resolve _ = false

-- The context under which the agent acts: the alert awaits approval, the claim is won, and the
-- stored context is readable, perceived and of the same tenant.
abbrev pub perceived_by : String → Option (Option Context) → Option AlertContext
perceived_by tenant_id none = none
perceived_by tenant_id (some none) = none
perceived_by tenant_id (some (some context)) = elim context.perceived [
  | none ↦ none
  | some ctx ↦ if ctx.tenant_id == tenant_id then some ctx else none
]

abbrev pub is_yes : Option Bool → Bool
is_yes none = false
is_yes (some b) = b

abbrev pub attempted : Store → String → Option AlertContext
attempted store tenant_id =
    if is_yes store.is_awaiting_approval
    then (if is_yes store.claim_approval
        then perceived_by tenant_id store.read_checkpoint
        else none)
    else none

abbrev pub is_failure : Option Outcome → Bool
is_failure (some (known false)) = true
is_failure _ = false

abbrev pub is_done : Option Outcome → Bool
is_done (some (known true)) = true
is_done _ = false

-- What an execution must do with a claim: `final` is the outcome of the isolation, if there was one.
abbrev pub Settles : (dispatches : ℕ) → Option Outcome → Bool → AgentResult × List Effect → Type 0
Settles dispatches final releases r =
    (count is_dispatch r.1 ≡ dispatches)
    × (any is_release r.1 ≡ is_failure final)
    × (any is_resolve r.1 ≡ is_done final)
    × (r.0.retryable ≡ (is_failure final && releases))

finish-Settles :
    (store : Store) (case_id : String) (outcome : Outcome)
    → Settles 0 (some outcome) store.releases (finish store case_id outcome)
unfolding finish case_effects transition
finish-Settles store case_id (known true) = ground arith
finish-Settles store case_id (known false) = ground arith
finish-Settles store case_id (outcome_unknown _) = ground arith

after_dispatch :
    (store : Store) (case_id : String) (broker : Outcome) (ctx : AlertContext)
    → Settles 1 (some broker) store.releases (
        then_do
          (dispatch ctx.target_ip ctx.tenant_id ctx.target_mac ∷ [])
          (finish store case_id broker))
after_dispatch store case_id broker ctx =
    let (d, r, s, t) = finish-Settles store case_id broker in (omega (arith, d), r, s, t)

abbrev pub planned : AlertContext → Outcome → Bool → Outcome × List Effect
planned ctx broker b =
    if b
    then (broker, dispatch ctx.target_ip ctx.tenant_id ctx.target_mac ∷ [])
    else (known false, [])

planned-Settles :
    (store : Store) (case_id : String) (broker : Outcome) (ctx : AlertContext) (b : Bool)
    → Settles
        (if b then 1 else 0)
        (if b then some broker else some (known false))
        store.releases
        (then_do (planned ctx broker b).1 (finish store case_id (planned ctx broker b).0))
planned-Settles store case_id broker ctx true = after_dispatch store case_id broker ctx
planned-Settles store case_id broker ctx false = finish-Settles store case_id (known false)

module _ (ip : Ipaddress) where
  -- The agent dispatches for it: it is not excluded, and its address parses.
  abbrev pub is_dispatchable : Option (List String) → AlertContext → Bool
  is_dispatchable exclusions ctx = elim (is_excluded ip exclusions ctx.target_ip ctx.target_mac) [
    | some _ ↦ false
    | none ↦ elim (ip.ip_address ctx.target_ip) [ none ↦ false | some _ ↦ true ]
  ]

  abbrev pub dispatches : Option (List String) → Option AlertContext → ℕ
  dispatches exclusions none = 0
  dispatches exclusions (some ctx) = if is_dispatchable exclusions ctx then 1 else 0

  abbrev pub final : Option (List String) → Outcome → Option AlertContext → Option Outcome
  final exclusions broker none = none
  final exclusions broker (some ctx) =
      if is_dispatchable exclusions ctx then some broker else some (known false)

  pub execute_isolation-planned :
      (exclusions : Option (List String)) (ctx : AlertContext) (broker : Outcome)
      → execute_isolation ip exclusions ctx broker
        ≡ planned ctx broker (is_dispatchable exclusions ctx)
  unfolding execute_isolation
  execute_isolation-planned exclusions ctx broker = ground arith

  isolated-then_do :
      (store : Store) (case_id : String) (o : Outcome × List Effect)
      → isolated ip store case_id o ≡ then_do o.1 (finish store case_id o.0)
  unfolding isolated
  isolated-then_do store case_id (outcome, effects) = refl

  isolated-Settles :
      (store : Store) (case_id : String) (exclusions : Option (List String)) (broker : Outcome)
      (ctx : AlertContext)
      → Settles
          (dispatches exclusions (some ctx))
          (final exclusions broker (some ctx))
          store.releases
          (isolated ip store case_id (execute_isolation ip exclusions ctx broker))
  isolated-Settles store case_id exclusions broker ctx =
      rw (execute_isolation-planned exclusions ctx broker) (
        rw (isolated-then_do store case_id (planned ctx broker (is_dispatchable exclusions ctx)))
          (planned-Settles store case_id broker ctx (is_dispatchable exclusions ctx)))

  of_tenant-Settles :
      (store : Store) (tenant_id case_id : String) (exclusions : Option (List String))
      (broker : Outcome) (ctx : AlertContext)
      → Settles
          (dispatches exclusions (if ctx.tenant_id == tenant_id then some ctx else none))
          (final exclusions broker (if ctx.tenant_id == tenant_id then some ctx else none))
          store.releases
          (of_tenant ip store tenant_id exclusions broker case_id ctx)
  unfolding of_tenant
  of_tenant-Settles store tenant_id case_id exclusions broker ctx =
      elim (Bool-cases (ctx.tenant_id == tenant_id)) [
        | inl same ↦ rw same (isolated-Settles store case_id exclusions broker ctx)
        | inr other ↦ rw other (refl, refl, refl, refl)
      ]

  with_context-Settles :
      (store : Store) (tenant_id : String) (exclusions : Option (List String)) (broker : Outcome)
      (o : Option (Option Context))
      → Settles
          (dispatches exclusions (perceived_by tenant_id o))
          (final exclusions broker (perceived_by tenant_id o))
          store.releases
          (with_context ip store tenant_id exclusions broker o)
  unfolding with_context
  with_context-Settles store tenant_id exclusions broker none = (refl, refl, refl, refl)
  with_context-Settles store tenant_id exclusions broker (some none) = (refl, refl, refl, refl)
  with_context-Settles store tenant_id exclusions broker (some (some context)) =
      elim (Option-cases context.perceived) [
        | inl bad ↦ rw bad (refl, refl, refl, refl)
        | inr (ctx, good) ↦
            rw good (of_tenant-Settles store tenant_id context.case_id exclusions broker ctx)
      ]

  claimed_or_not-Settles :
      (store : Store) (tenant_id : String) (exclusions : Option (List String)) (broker : Outcome)
      (o : Option Bool)
      → let ctx = if is_yes o then perceived_by tenant_id store.read_checkpoint else none in
        Settles
          (dispatches exclusions ctx)
          (final exclusions broker ctx)
          store.releases
          (claimed_or_not ip store tenant_id exclusions broker o)
  unfolding claimed_or_not
  claimed_or_not-Settles store tenant_id exclusions broker none = (omega arith, refl, refl, refl)
  claimed_or_not-Settles store tenant_id exclusions broker (some false) =
      (omega arith, refl, refl, refl)
  claimed_or_not-Settles store tenant_id exclusions broker (some true) =
      let (d, r, s, t) =
        with_context-Settles store tenant_id exclusions broker store.read_checkpoint in
      (omega (arith, d), r, s, t)

  -- An approved execution calls the broker once if the alert awaits approval, this call won the
  -- claim, the stored context is readable, of the same tenant, not excluded and has a valid address,
  -- and never otherwise. With a readable context of the same tenant it tries to give the claim back
  -- exactly when the isolation failed for certain, to resolve it exactly when it succeeded, and
  -- neither when the outcome is unknown. It reports the alert as retryable exactly when the
  -- isolation failed for certain and giving the claim back did not raise.
  pub execute_approved-Settles :
      (store : Store) (tenant_id : String) (exclusions : Option (List String)) (broker : Outcome)
      → let ctx = attempted store tenant_id in
        Settles
          (dispatches exclusions ctx)
          (final exclusions broker ctx)
          store.releases
          (execute_approved ip store tenant_id exclusions broker)
  unfolding execute_approved awaiting_or_not
  execute_approved-Settles store tenant_id exclusions broker = go store.is_awaiting_approval
    where
      go :
          (o : Option Bool)
          → let ctx =
              if is_yes o
              then (if is_yes store.claim_approval
                  then perceived_by tenant_id store.read_checkpoint
                  else none)
              else none in
            Settles
              (dispatches exclusions ctx)
              (final exclusions broker ctx)
              store.releases
              (awaiting_or_not ip store tenant_id exclusions broker o)
      go none = (refl, refl, refl, refl)
      go (some false) = (refl, refl, refl, refl)
      go (some true) = claimed_or_not-Settles store tenant_id exclusions broker store.claim_approval
