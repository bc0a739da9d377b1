-- ===== src/Agent/Intake/Acts.antt =====
-- What `act` and `check` leave behind, by the branch that `act` takes.
use suburban_soc.Base.{
  String, ◌≡◌, refl, Bool, true, false, not, ◌&&◌, ◌||◌, Option, none, some, List, arith, ◌==◌,
  nat_eq, string_eq, beq_refl, if◌then◌else◌, any, count,
}
use suburban_soc.Base.Text.{lower}
use suburban_soc.Broker.Exclusion.{Ipaddress}
use suburban_soc.Agent.Excluded.{is_excluded}
use suburban_soc.Agent.Isolation.{Outcome, known, outcome_unknown}
use suburban_soc.Agent.Execution.{AlertContext, Effect, checkpoint, draft, execute_isolation}
use suburban_soc.Agent.Execution.Once.{
  is_dispatch, is_dispatchable, planned, execute_isolation-planned,
}
use suburban_soc.Agent.Intake.Perceive.{Severity, str_value, other_value, Perceived, is_private_ip}
use suburban_soc.Agent.Intake.{
  protected, act_on, World, RunResult, goes_alone, act, alone, drafted, checked,
}

abbrev pub is_draft : String → Effect → Bool
is_draft id (draft i) = i == id
is_draft id _ = false

abbrev pub is_any_draft : Effect → Bool
is_any_draft (draft _) = true
is_any_draft _ = false

abbrev pub awaits : Effect → Bool
awaits (checkpoint phase) = phase == "PENDING_APPROVAL"
awaits _ = false

abbrev pub is_drafted : Option RunResult → Bool
is_drafted none = false
is_drafted (some r) = r.status == "drafted"

-- An answer that is not yes: an exception counts as no.
abbrev pub not_yes : Option Bool → Bool
not_yes none = true
not_yes (some b) = not b

abbrev pub is_there {ℓ} : {A : Type ℓ} → Option A → Bool
is_there none = false
is_there (some _) = true

-- A run dispatches once if `alone`, and otherwise not at all; it drafts the action `id` exactly if
-- `left`; and it leaves the alert awaiting approval and answers "drafted" exactly if `told`.
abbrev pub Shows : (id : String) (alone left told : Bool) → Option RunResult × List Effect → Type 0
Shows id alone left told r =
    (count is_dispatch r.1 ≡ (if alone then 1 else 0))
    × (any (is_draft id) r.1 ≡ left)
    × (any awaits r.1 ≡ told)
    × (is_drafted r.0 ≡ told)

abbrev pub is_text : Severity → Bool
is_text (str_value _) = true
is_text (other_value _) = false

abbrev pub id_of : Option Perceived → String
id_of none = ""
id_of (some ctx) = ctx.alert_id

no_and : (p q : Bool) → q ≡ false → (p && q) ≡ false
no_and p q h = ground (arith, h)

-- The autonomous flag is set, the severity is the text "critical", and the target has a MAC or an
-- address that is known not to be private.
abbrev pub may_go_alone : Ipaddress → Bool → Perceived → Bool
may_go_alone ip flag ctx =
    flag
    && ((elim ctx.severity [ str_value s ↦ s == "critical" | other_value _ ↦ false ])
        && (not (ctx.target.target_mac == "") || (elim (ip.ip_address ctx.target.target_ip) [
          | none ↦ false
          | some addr ↦ not (ip.is_private addr)
        ])))

module _ (ip : Ipaddress) (autonomous_isolation : Bool) where
  goes_alone-may :
      (ctx : Perceived)
      → goes_alone ip autonomous_isolation ctx ≡ may_go_alone ip autonomous_isolation ctx
  unfolding goes_alone is_private_ip
  goes_alone-may ctx = ground arith

  alone-Shows :
      (id : String) (target : AlertContext) (broker : Outcome) (b : Bool)
      → Shows id b false false (
          checked ip autonomous_isolation (alone ip autonomous_isolation (planned target broker b)))
  unfolding alone checked lower
  alone-Shows id target (known true) true = (refl, refl, refl, refl)
  alone-Shows id target (known false) true = (refl, refl, refl, refl)
  alone-Shows id target (outcome_unknown _) true = (refl, refl, refl, refl)
  alone-Shows id target broker false = (refl, refl, refl, refl)

  drafted-Shows :
      (id : String) (severity : Severity) (writable : Bool)
      → Shows id false writable
          (writable && is_text severity)
          (checked ip autonomous_isolation (drafted ip autonomous_isolation writable severity id))
  unfolding drafted checked
  drafted-Shows id (str_value _) true = (refl, rw (beq_refl id) refl, refl, refl)
  drafted-Shows id (other_value _) true = (refl, rw (beq_refl id) refl, refl, refl)
  drafted-Shows id severity false = (refl, refl, refl, refl)

  unprotected-Shows :
      (w : World) (ctx : Perceived) (goes : Bool)
      → Shows ctx.alert_id
          (goes && is_dispatchable ip w.exclusions ctx.target)
          (not goes && w.queue_writable)
          (not goes && (w.queue_writable && is_text ctx.severity))
          (checked ip autonomous_isolation (
            if goes
            then alone ip autonomous_isolation
                (execute_isolation ip w.exclusions ctx.target w.broker)
            else drafted ip autonomous_isolation w.queue_writable ctx.severity ctx.alert_id))
  unprotected-Shows w ctx true =
      rw (execute_isolation-planned ip w.exclusions ctx.target w.broker)
        (alone-Shows ctx.alert_id ctx.target w.broker (is_dispatchable ip w.exclusions ctx.target))
  unprotected-Shows w ctx false = drafted-Shows ctx.alert_id ctx.severity w.queue_writable

  protected-Shows :
      (id : String) (severity : Severity)
      → Shows id false false false
          (checked ip autonomous_isolation (protected ip autonomous_isolation severity))
  unfolding checked lower
  protected-Shows id (str_value _) = (refl, refl, refl, refl)
  protected-Shows id (other_value _) = (refl, refl, refl, refl)

  act_on-Shows :
      (w : World) (ctx : Perceived) (excluded : Option String)
      → is_excluded ip w.exclusions ctx.target.target_ip ctx.target.target_mac ≡ excluded
      → let goes = goes_alone ip autonomous_isolation ctx in
        Shows ctx.alert_id
          (goes && is_dispatchable ip w.exclusions ctx.target)
          (not (is_there excluded) && (not goes && w.queue_writable))
          (not (is_there excluded) && (not goes && (w.queue_writable && is_text ctx.severity)))
          (checked ip autonomous_isolation (act_on ip autonomous_isolation w ctx excluded))
  unfolding act_on
  act_on-Shows w ctx none e = unprotected-Shows w ctx (goes_alone ip autonomous_isolation ctx)
  act_on-Shows w ctx (some entry) e =
      rw
        (no_and (goes_alone ip autonomous_isolation ctx)
          (is_dispatchable ip w.exclusions ctx.target) (ground (arith, e)))
        (protected-Shows ctx.alert_id ctx.severity)

  pub checked-Shows :
      (w : World) (ctx : Perceived)
      → let goes = may_go_alone ip autonomous_isolation ctx in
        let excluded =
          is_there (is_excluded ip w.exclusions ctx.target.target_ip ctx.target.target_mac) in
        Shows ctx.alert_id
          (goes && is_dispatchable ip w.exclusions ctx.target)
          (not excluded && (not goes && w.queue_writable))
          (not excluded && (not goes && (w.queue_writable && is_text ctx.severity)))
          (checked ip autonomous_isolation (act ip autonomous_isolation w ctx))
  unfolding act
  checked-Shows w ctx = rw (goes_alone-may ctx) at (
      act_on-Shows w ctx (is_excluded ip w.exclusions ctx.target.target_ip ctx.target.target_mac)
        refl)
