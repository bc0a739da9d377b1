-- ===== src/Agent/Intake.antt =====
-- The intake of an alert: `Agent.run`, `act` and `check` of scripts/setup/ai_agent/agent.py. What the calls come to are arguments.
pub mod Perceive
pub mod Acts
pub mod Alone
use suburban_soc.Base.{
  ℕ, zero, suc, ◌+◌, ◌-◌, ◌*◌, ◌^◌, ◌≤◌, ◌<◌, String, ◌≡◌, refl, sym, ap, ◌∙◌, ◌≢◌, ◌↔◌, ◌⊎◌, inl,
  inr, Bool, true, false, not, ◌&&◌, ◌||◌, Option, none, some, List, [], ◌∷◌, ◌++◌, map, arith, ltb,
  leb, Eq, ◌==◌, nat_eq, string_eq, beq_refl, ne_of_beq, eq_of_beq, All-mono, if◌then◌else◌,
  Bool-cases, Option-cases, length, select, any, count, All, length-append, select-append,
  any-append, count-append, count-le-length, All-append, All-of,
}
use suburban_soc.Base.Text.{lower}
use suburban_soc.Broker.Exclusion.{Ipaddress}
use suburban_soc.Agent.Excluded.{is_excluded}
use suburban_soc.Agent.Suppress.{Answer, should_suppress_technique}
use suburban_soc.Agent.Isolation.{Outcome, known, outcome_unknown}
use suburban_soc.Agent.Execution.{
  Effect, audit, checkpoint, case_comment, close_case, draft, notify, soar_action, health_marker,
  execute_isolation,
}
use suburban_soc.Agent.Intake.Perceive.{
  Severity, str_value, other_value, says, Alert, Perceived, is_private_ip, host_of, perceive,
}

-- What the calls of one run come to: `is_duplicate`, the two requests of the suppression window,
-- `think` after its retries (its case), the append to the queue, and the broker; none is an
-- exception.
pub record World : Type 0 where
  pub now : ℕ
  pub duplicate : Option Bool
  pub window : Answer
  pub window_written : Bool
  pub case_id : Option String
  pub queue_writable : Bool
  pub exclusions : Option (List String)
  pub broker : Outcome

pub record RunResult : Type 0 where
  pub status_code : ℕ
  pub status : String
  pub action_id : String

-- What `act` returns: the phase and the id of the action.
pub record Acted : Type 0 where
  pub phase : String
  pub action_id : String

module _ (ip : Ipaddress) (autonomous_isolation : Bool) where
  -- The condition of the autonomous branch
  pub goes_alone : Perceived → Bool
  unfolding is_private_ip
  goes_alone ctx =
      autonomous_isolation
      && (says ctx.severity "critical"
          && (not (ctx.target.target_mac == "") || not (is_private_ip ip ctx.target.target_ip)))

  -- `ctx.severity.upper()` raises on what is no text, here before anything is done.
  abbrev pub protected : Severity → Option Acted × List Effect
  protected (other_value _) = (none, [])
  protected (str_value _) = (
    some (record { phase = "NO_ACTION_PROTECTED_ASSET"; action_id = "" }),
    notify "Alert on PROTECTED asset"
        ∷ soar_action "analyst_review"
        ∷ case_comment "PROTECTED"
        ∷ close_case
        ∷ audit "alert_excluded_asset"
        ∷ [],
  )

  abbrev isolated_alone : Bool → Option Acted × List Effect
  isolated_alone ok = (
    some (record { phase = if ok then "AUTO_ISOLATED" else "ISOLATION_FAILED"; action_id = "" }),
    notify "Autonomous Isolation"
        ∷ notify "Discord"
        ∷ soar_action (if ok then "quarantine" else "analyst_review")
        ∷ case_comment (if ok then "SUCCEEDED" else "FAILED")
        ∷ (if ok
            then close_case ∷ audit "autonomous_isolation" ∷ []
            else audit "autonomous_isolation" ∷ []),
  )

  -- An unknown outcome counts as not isolated.
  abbrev succeeded : Outcome → Bool
  succeeded (known b) = b
  succeeded (outcome_unknown _) = false

  pub alone : Outcome × List Effect → Option Acted × List Effect
  alone (outcome, effects) =
      let (acted, more) = isolated_alone (succeeded outcome) in (acted, effects ++ more)

  -- Here it raises after the action was queued.
  pub drafted : Bool → Severity → String → Option Acted × List Effect
  drafted false severity alert_id = (none, [])
  drafted true (other_value _) alert_id =
      (none, draft alert_id ∷ case_comment "DRAFTED" ∷ audit "response_drafted" ∷ [])
  drafted true (str_value _) alert_id = (
    some (record { phase = "PENDING_APPROVAL"; action_id = alert_id }),
    draft alert_id
        ∷ case_comment "DRAFTED"
        ∷ audit "response_drafted"
        ∷ notify "Response DRAFTED"
        ∷ soar_action "analyst_review"
        ∷ [],
  )

  -- none is the exception of a queue that cannot be written, or of `upper`.
  pub act_on : World → Perceived → (excluded : Option String) → Option Acted × List Effect
  unfolding goes_alone alone drafted
  act_on w ctx (some _) = protected ctx.severity
  act_on w ctx none =
      if goes_alone ctx
      then alone (execute_isolation ip w.exclusions ctx.target w.broker)
      else drafted w.queue_writable ctx.severity ctx.alert_id

  pub act : World → Perceived → Option Acted × List Effect
  unfolding act_on
  act w ctx = act_on w ctx (is_excluded ip w.exclusions ctx.target.target_ip ctx.target.target_mac)

  -- `check` and the response; none is an exception that nothing handles.
  pub checked : Option Acted × List Effect → Option RunResult × List Effect
  checked (none, effects) = (none, effects)
  checked (some a, effects) = (
    some (record {
      status_code = 200;
      status = if a.phase == "PENDING_APPROVAL" then "drafted" else lower a.phase;
      action_id = a.action_id;
    }),
    effects ++ (checkpoint a.phase ∷ []),
  )

  abbrev pub then_run :
      List Effect → Option RunResult × List Effect → Option RunResult × List Effect
  then_run first (result, effects) = (result, first ++ effects)

  pub thought : World → Perceived → Option String → Option RunResult × List Effect
  unfolding act checked
  thought w ctx none = (none, checkpoint "PERCEIVING" ∷ [])
  thought w ctx (some case_id) = then_run (checkpoint "PERCEIVING" ∷ []) (checked (act w ctx))

  abbrev ignored : List Effect → Option RunResult × List Effect
  ignored effects =
      (some (record { status_code = 200; status = "ignored"; action_id = "" }), effects)

  -- Both checks fail open: an exception counts as no.
  pub unless_suppressed : World → Perceived → Option Bool → Option RunResult × List Effect
  unfolding thought
  unless_suppressed w ctx none =
      then_run (health_marker "technique_suppression_check_failed" ∷ []) (thought w ctx w.case_id)
  unless_suppressed w ctx (some true) = ignored (audit "alert_suppressed" ∷ [])
  unless_suppressed w ctx (some false) = thought w ctx w.case_id

  -- The window only compares a severity with "critical", which another value never is.
  abbrev judged_severity : Severity → String
  judged_severity (str_value s) = s
  judged_severity (other_value _) = ""

  pub suppression : World → Perceived → Option Bool
  unfolding host_of
  suppression w ctx =
      (should_suppress_technique 900 3600
        (record {
          host = host_of ctx.target;
          technique = ctx.technique;
          severity = judged_severity ctx.severity;
          now = w.now;
        })
        w.window w.window_written).returned

  pub unless_duplicate : World → Perceived → Option Bool → Option RunResult × List Effect
  unfolding unless_suppressed suppression
  unless_duplicate w ctx none =
      then_run (health_marker "duplicate_check_failed" ∷ [])
        (unless_suppressed w ctx (suppression w ctx))
  unless_duplicate w ctx (some true) = ignored []
  unless_duplicate w ctx (some false) = unless_suppressed w ctx (suppression w ctx)

  pub of_perceived : World → Option Perceived → Option RunResult × List Effect
  unfolding unless_duplicate
  of_perceived w none = (some (record { status_code = 400; status = "error"; action_id = "" }), [])
  of_perceived w (some ctx) = unless_duplicate w ctx w.duplicate

  module _ (sha256 : String → String) (is_digit : ℕ → Bool) where
    unfoldable pub run : World → (bucket : String) → Option Alert → Option RunResult × List Effect
    unfolding of_perceived
    run w bucket payload = of_perceived w (perceive ip sha256 is_digit bucket payload)
