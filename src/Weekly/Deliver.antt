-- ===== src/Weekly/Deliver.antt =====
-- `generate_executive_summary`, `create_pdf_report`, `send_to_slack`, `send_ntfy_notification` and
-- `run_reporting_pipeline`. The settings are a `Config`, what the outside answers is a `World`, and
-- what is sent is a list.
pub mod Published
pub mod Asked
use suburban_soc.Base.Http.{Answer, lost, replied}
use suburban_soc.Base.Text.{has_text, strip}
use suburban_soc.Weekly.Metrics.{Clock, Source, Figures, fetch_and_calculate_metrics}
use suburban_soc.Weekly.Reports.{Report, Pruned, prune_old_reports}
use suburban_soc.Base.{
  ℕ, ◌+◌, String, Bool, true, false, not, ◌&&◌, ◌||◌, Option, none, some, List, [], ◌∷◌, ◌++◌, ltb,
  leb, ◌==◌, nat_eq, string_eq, if◌then◌else◌, any,
}

pub record Config : Type 0 where
  pub llm_api_url : String
  pub llm_allow_hosted : Bool
  pub slack_token : String
  pub slack_channel : String
  pub pdf_retention_count : ℕ

-- The body of files.getUploadURLExternal; none is a key that is not there.
pub record Ticket : Type 0 where
  pub is_ok : Bool
  pub upload_url : Option String
  pub file_id : Option String

-- `written` is the report that was written, and none where that raised; `glob` is what the directory
-- then holds. A body that is none is one that the code raises on.
pub record World : Type 0 where
  pub search : Option (List Source)
  pub completion : Answer String
  pub written : Option Report
  pub glob : Report → List Report
  pub unlinks : Report → Bool
  pub ticket : Answer Ticket
  pub upload : Answer (Unit {0})
  pub complete : Answer Bool

pub data Event : Type 0 where
  ask_llm : Figures → Event
  write_pdf : Figures → String → Event
  ask_upload : String → Event
  put_file : String → String → Event
  complete_upload : String → String → Event
  push : Figures → Bool → Event

unfoldable pub is_hosted : String → Bool
is_hosted llm_api_url =
    not (any (λ h. has_text h llm_api_url) ("localhost" ∷ "127.0.0.1" ∷ "ollama" ∷ "::1" ∷ []))

pub record Narrated : Type 0 where
  pub sent : List Event
  pub narrative : String

abbrev pub skipped : String
skipped =
    "Executive summary skipped: hosted-LLM egress is disabled by policy (set LLM_ALLOW_HOSTED=true or point LLM_API_URL at a local model)."

abbrev pub not_generated : String
not_generated = "Executive summary could not be generated at this time. Manual review required."

-- `raise_for_status`, and the text of the body, stripped
unfoldable pub narrative_of : Answer String → String
narrative_of lost = not_generated
narrative_of (replied status none) = not_generated
narrative_of (replied status (some text)) =
    if leb 400 status && ltb status 600 then not_generated else strip text

unfoldable pub generate_executive_summary : Config → World → Figures → Narrated
unfolding is_hosted narrative_of
generate_executive_summary config world metrics =
    if is_hosted config.llm_api_url && not config.llm_allow_hosted
    then record { sent = []; narrative = skipped }
    else record { sent = ask_llm metrics ∷ []; narrative = narrative_of world.completion }

-- What was sent to Slack, and what is returned; none is an exception.
pub record Slack : Type 0 where
  pub sent : List Event
  pub delivered : Option Bool

-- Step 3
unfoldable pub publish : Config → Answer Bool → String → List Event → Slack
publish config answer file_id sent = record {
  sent = sent ++ complete_upload file_id config.slack_channel ∷ [];
  delivered = elim answer [ lost ↦ none | replied status body ↦ body ];
}

-- Step 2, and what follows its answer
unfoldable pub after_put : Config → Answer Bool → String → List Event → Answer (Unit {0}) → Slack
unfolding publish
after_put config complete file_id sent lost = record { sent = sent; delivered = none }
after_put config complete file_id sent (replied status body) =
    if status == 200 || status == 201
    then publish config complete file_id sent
    else record { sent = sent; delivered = some false }

-- `url_data.get("ok")`, `url_data["upload_url"]` and `url_data["file_id"]`, in turn
unfoldable pub with_keys :
    Config → World → String → List Event → Bool → Option String → Option String → Slack
unfolding after_put
with_keys config world path sent false url file_id = record { sent = sent; delivered = some false }
with_keys config world path sent true none file_id = record { sent = sent; delivered = none }
with_keys config world path sent true (some url) none = record { sent = sent; delivered = none }
with_keys config world path sent true (some url) (some file_id) =
    after_put config world.complete file_id (sent ++ put_file url path ∷ []) world.upload

unfoldable pub ask_ticket : Config → World → String → Answer Ticket → Slack
unfolding with_keys
ask_ticket config world path lost = record { sent = ask_upload path ∷ []; delivered = none }
ask_ticket config world path (replied status none) = record {
  sent = ask_upload path ∷ [];
  delivered = none;
}
ask_ticket config world path (replied status (some ticket)) =
    with_keys config world path (ask_upload path ∷ []) ticket.is_ok ticket.upload_url ticket.file_id

unfoldable pub send_to_slack : Config → World → String → Slack
unfolding ask_ticket
send_to_slack config world path =
    if config.slack_token == "" || config.slack_channel == ""
    then record { sent = []; delivered = some false }
    else ask_ticket config world path world.ticket

pub record Summary : Type 0 where
  pub pdf : String
  pub total_alerts : ℕ
  pub average_mttd_minutes : ℕ
  pub slack_delivered : Bool
  pub demo_mode : Bool

-- What a run of the pipeline sent, the reports that it left on disk, and what it returned.
pub record Run : Type 0 where
  pub sent : List Event
  pub kept : Option Pruned
  pub returned : Option Summary

-- From the delivery on, by what `send_to_slack` sent and returned.
unfoldable pub finish :
    Figures → String → List Event → Option Pruned → List Event → Option Bool → Run
finish metrics path sent kept to_slack none = record {
  sent = sent ++ to_slack;
  kept = kept;
  returned = none;
}
finish metrics path sent kept to_slack (some delivered) = record {
  sent = sent ++ to_slack ++ push metrics delivered ∷ [];
  kept = kept;
  returned = some (record {
    pdf = path;
    total_alerts = metrics.total_alerts;
    average_mttd_minutes = metrics.average_mttd_minutes;
    slack_delivered = delivered;
    demo_mode = metrics.demo_mode;
  });
}

-- From `create_pdf_report` on.
unfoldable pub with_report : Config → World → Figures → Narrated → Option Report → Run
unfolding finish
with_report config world metrics narrated none = record {
  sent = narrated.sent;
  kept = none;
  returned = none;
}
with_report config world metrics narrated (some report) =
    let slack = send_to_slack config world report.name in
    finish metrics report.name (narrated.sent ++ write_pdf metrics narrated.narrative ∷ [])
      (some (prune_old_reports world.unlinks (world.glob report) config.pdf_retention_count))
      slack.sent slack.delivered

unfoldable pub run_reporting_pipeline : (clock : Clock) → Config → World → Run
unfolding with_report
run_reporting_pipeline clock config world =
    let metrics = fetch_and_calculate_metrics clock world.search in
    with_report config world metrics (generate_executive_summary config world metrics) world.written
