-- ===== src/Agent/Intake/Alone.antt =====
-- One run of the agent on an alert: what it dispatches and what it drafts.
use suburban_soc.Base.{
  ℕ, String, ◌≡◌, refl, Bool, true, false, not, ◌&&◌, Option, none, some, List, [], ◌∷◌, arith,
  nat_eq, string_eq,
}
use suburban_soc.Broker.Exclusion.{Ipaddress}
use suburban_soc.Agent.Excluded.{is_excluded}
use suburban_soc.Agent.Execution.{
  Effect, claim, queue_row, resolve, release, dispatch, audit, checkpoint, case_comment, close_case,
  draft, notify, soar_action, health_marker,
}
use suburban_soc.Agent.Execution.Once.{is_dispatch, is_dispatchable}
use suburban_soc.Agent.Intake.Perceive.{Alert, Perceived, perceive}
use suburban_soc.Agent.Intake.{
  World, RunResult, act, checked, then_run, thought, unless_suppressed, unless_duplicate,
  suppression, of_perceived, run,
}
use suburban_soc.Agent.Intake.Acts.{
  Shows, id_of, is_any_draft, awaits, not_yes, is_there, is_text, may_go_alone, checked-Shows,
}

module _ (ip : Ipaddress) (autonomous_isolation : Bool) where
  -- The alert is no duplicate and not suppressed, and its analysis came back; then what follows.
  abbrev pub is_handled : World → Perceived → Bool → Bool
  is_handled w ctx then_ =
      not_yes w.duplicate
      && (not_yes (suppression ip autonomous_isolation w ctx) && (is_there w.case_id && then_))

  abbrev pub is_isolated_alone : World → Option Perceived → Bool
  is_isolated_alone w none = false
  is_isolated_alone w (some ctx) =
      is_handled w ctx
        (may_go_alone ip autonomous_isolation ctx && is_dispatchable ip w.exclusions ctx.target)

  abbrev pub is_drafted_for : World → Option Perceived → Bool
  is_drafted_for w none = false
  is_drafted_for w (some ctx) = is_handled w ctx (
      not (is_there (is_excluded ip w.exclusions ctx.target.target_ip ctx.target.target_mac))
      && (not (may_go_alone ip autonomous_isolation ctx) && w.queue_writable))

  abbrev pub is_told_for : World → Option Perceived → Bool
  is_told_for w none = false
  is_told_for w (some ctx) = is_handled w ctx (
      not (is_there (is_excluded ip w.exclusions ctx.target.target_ip ctx.target.target_mac))
      && (not (may_go_alone ip autonomous_isolation ctx)
          && (w.queue_writable && is_text ctx.severity)))

  abbrev is_quiet : Effect → Bool
  is_quiet e = not (is_dispatch e) && (not (is_any_draft e) && not (awaits e))

  quiet-Shows :
      (e : Effect) (id : String) (b left told : Bool) (r : Option RunResult × List Effect)
      → is_quiet e ≡ true
      → Shows id b left told r
      → Shows id b left told (then_run ip autonomous_isolation (e ∷ []) r)
  quiet-Shows (health_marker _) id b left told r q (d, i, a, s) = (omega (arith, d), i, a, s)
  quiet-Shows (checkpoint phase) id b left told r q (d, i, a, s) =
      (omega (arith, d), i, ground (arith, q, a), s)
  quiet-Shows (dispatch _ _ _) id b left told r q h = absurd (ground (arith, q))
  quiet-Shows (draft _) id b left told r q h = absurd (ground (arith, q))
  quiet-Shows (audit _) id b left told r q (d, i, a, s) = (omega (arith, d), i, a, s)
  quiet-Shows (case_comment _) id b left told r q (d, i, a, s) = (omega (arith, d), i, a, s)
  quiet-Shows close_case id b left told r q (d, i, a, s) = (omega (arith, d), i, a, s)
  quiet-Shows (notify _) id b left told r q (d, i, a, s) = (omega (arith, d), i, a, s)
  quiet-Shows (soar_action _) id b left told r q (d, i, a, s) = (omega (arith, d), i, a, s)
  quiet-Shows claim id b left told r q (d, i, a, s) = (omega (arith, d), i, a, s)
  quiet-Shows (queue_row _) id b left told r q (d, i, a, s) = (omega (arith, d), i, a, s)
  quiet-Shows resolve id b left told r q (d, i, a, s) = (omega (arith, d), i, a, s)
  quiet-Shows release id b left told r q (d, i, a, s) = (omega (arith, d), i, a, s)

  abbrev isolates : World → Perceived → Bool
  isolates w ctx =
      may_go_alone ip autonomous_isolation ctx && is_dispatchable ip w.exclusions ctx.target

  abbrev leaves : World → Perceived → Bool
  leaves w ctx =
      not (is_there (is_excluded ip w.exclusions ctx.target.target_ip ctx.target.target_mac))
      && (not (may_go_alone ip autonomous_isolation ctx) && w.queue_writable)

  abbrev tells : World → Perceived → Bool
  tells w ctx =
      not (is_there (is_excluded ip w.exclusions ctx.target.target_ip ctx.target.target_mac))
      && (not (may_go_alone ip autonomous_isolation ctx)
          && (w.queue_writable && is_text ctx.severity))

  thought-Shows :
      (w : World) (ctx : Perceived) (case_id : Option String)
      → Shows ctx.alert_id
          (is_there case_id && isolates w ctx)
          (is_there case_id && leaves w ctx)
          (is_there case_id && tells w ctx)
          (thought ip autonomous_isolation w ctx case_id)
  unfolding thought
  thought-Shows w ctx none = (omega arith, refl, refl, refl)
  thought-Shows w ctx (some case_id) =
      quiet-Shows (checkpoint "PERCEIVING") ctx.alert_id (isolates w ctx) (leaves w ctx)
        (tells w ctx) (checked ip autonomous_isolation (act ip autonomous_isolation w ctx)) refl
        (checked-Shows ip autonomous_isolation w ctx)

  unless_suppressed-Shows :
      (w : World) (ctx : Perceived) (o : Option Bool)
      → Shows ctx.alert_id
          (not_yes o && (is_there w.case_id && isolates w ctx))
          (not_yes o && (is_there w.case_id && leaves w ctx))
          (not_yes o && (is_there w.case_id && tells w ctx))
          (unless_suppressed ip autonomous_isolation w ctx o)
  unfolding unless_suppressed
  unless_suppressed-Shows w ctx none =
      quiet-Shows (health_marker "technique_suppression_check_failed") ctx.alert_id
        (is_there w.case_id && isolates w ctx) (is_there w.case_id && leaves w ctx)
        (is_there w.case_id && tells w ctx) (thought ip autonomous_isolation w ctx w.case_id) refl
        (thought-Shows w ctx w.case_id)
  unless_suppressed-Shows w ctx (some true) = (omega arith, refl, refl, refl)
  unless_suppressed-Shows w ctx (some false) = thought-Shows w ctx w.case_id

  unless_duplicate-Shows :
      (w : World) (ctx : Perceived) (o : Option Bool)
      → let s = not_yes (suppression ip autonomous_isolation w ctx) in
        Shows ctx.alert_id
          (not_yes o && (s && (is_there w.case_id && isolates w ctx)))
          (not_yes o && (s && (is_there w.case_id && leaves w ctx)))
          (not_yes o && (s && (is_there w.case_id && tells w ctx)))
          (unless_duplicate ip autonomous_isolation w ctx o)
  unfolding unless_duplicate
  unless_duplicate-Shows w ctx none =
      quiet-Shows (health_marker "duplicate_check_failed") ctx.alert_id
        (not_yes (suppression ip autonomous_isolation w ctx)
          && (is_there w.case_id && isolates w ctx))
        (not_yes (suppression ip autonomous_isolation w ctx)
          && (is_there w.case_id && leaves w ctx))
        (not_yes (suppression ip autonomous_isolation w ctx) && (is_there w.case_id && tells w ctx))
        (unless_suppressed ip autonomous_isolation w ctx
          (suppression ip autonomous_isolation w ctx))
        refl (unless_suppressed-Shows w ctx (suppression ip autonomous_isolation w ctx))
  unless_duplicate-Shows w ctx (some true) = (refl, refl, refl, refl)
  unless_duplicate-Shows w ctx (some false) =
      unless_suppressed-Shows w ctx (suppression ip autonomous_isolation w ctx)

  of_perceived-Shows :
      (w : World) (p : Option Perceived)
      → Shows
          (id_of p)
          (is_isolated_alone w p)
          (is_drafted_for w p)
          (is_told_for w p)
          (of_perceived ip autonomous_isolation w p)
  unfolding of_perceived
  of_perceived-Shows w none = (refl, refl, refl, refl)
  of_perceived-Shows w (some ctx) = unless_duplicate-Shows w ctx w.duplicate

  -- What one run of the agent does with an alert, whichever of its calls fail. It dispatches once if
  -- the alert is new, not suppressed and analysed, the autonomous flag is set, the severity is
  -- "critical", the target has a MAC or an address that is known not to be private, and it is not
  -- excluded and has an address; and never otherwise. If the alert is new, not suppressed and
  -- analysed, not excluded and not for the autonomous branch, and the queue can be written, then it
  -- drafts the action for approval, and, if the severity is a text, it leaves the checkpoint awaiting
  -- approval and answers "drafted"; it does none of the three otherwise, and only the first with a
  -- severity that is no text. A check for duplicates or suppression that fails counts as no.
  pub run-Shows :
      (sha256 : String → String) (is_digit : ℕ → Bool) (w : World) (bucket : String)
      (payload : Option Alert)
      → let ctx = perceive ip sha256 is_digit bucket payload in
        Shows
          (id_of ctx)
          (is_isolated_alone w ctx)
          (is_drafted_for w ctx)
          (is_told_for w ctx)
          (run ip autonomous_isolation sha256 is_digit w bucket payload)
  unfolding run
  run-Shows sha256 is_digit w bucket payload =
      of_perceived-Shows w (perceive ip sha256 is_digit bucket payload)
