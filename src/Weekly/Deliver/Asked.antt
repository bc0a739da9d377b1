-- ===== src/Weekly/Deliver/Asked.antt =====
-- The figures go to a hosted model only where that is allowed, in whatever way a run ends.
use suburban_soc.Base.Http.{Answer, lost, replied}
use suburban_soc.Weekly.Metrics.{Clock, Figures, fetch_and_calculate_metrics}
use suburban_soc.Weekly.Reports.{Report, Pruned, prune_old_reports}
use suburban_soc.Weekly.Deliver.{
  Config, Ticket, World, Event, ask_llm, write_pdf, ask_upload, put_file, complete_upload, push,
  is_hosted, Narrated, generate_executive_summary, publish, after_put, with_keys, ask_ticket,
  send_to_slack, finish, with_report, run_reporting_pipeline, skipped,
}
use suburban_soc.Base.{
  String, ◌≡◌, refl, ap, Bool, true, false, Option, none, some, List, [], ◌∷◌, ◌++◌, arith, nat_eq,
  string_eq, count, count-append,
}

abbrev pub asks : Event → Bool
asks (ask_llm metrics) = true
asks (write_pdf metrics narrative) = false
asks (ask_upload path) = false
asks (put_file url path) = false
asks (complete_upload file_id channel) = false
asks (push metrics delivered) = false

after_put-asks :
    (config : Config) (complete : Answer Bool) (file_id : String) (sent : List Event)
    (answer : Answer (Unit {0}))
    → count asks (after_put config complete file_id sent answer).sent ≡ count asks sent
unfolding after_put publish
after_put-asks config complete file_id sent lost = refl
after_put-asks config complete file_id sent (replied status body) =
    ground (arith, count-append asks sent (complete_upload file_id config.slack_channel ∷ []))

with_keys-asks :
    (config : Config) (world : World) (path : String) (is_ok : Bool)
    (upload_url file_id : Option String)
    → count asks (with_keys config world path (ask_upload path ∷ []) is_ok upload_url file_id).sent
      ≡ 0
unfolding with_keys
with_keys-asks config world path false upload_url file_id = refl
with_keys-asks config world path true none file_id = refl
with_keys-asks config world path true (some url) none = refl
with_keys-asks config world path true (some url) (some file_id) =
    after_put-asks config world.complete file_id (ask_upload path ∷ put_file url path ∷ [])
      world.upload

ask_ticket-asks :
    (config : Config) (world : World) (path : String) (answer : Answer Ticket)
    → count asks (ask_ticket config world path answer).sent ≡ 0
unfolding ask_ticket
ask_ticket-asks config world path lost = refl
ask_ticket-asks config world path (replied status none) = refl
ask_ticket-asks config world path (replied status (some ticket)) =
    with_keys-asks config world path ticket.is_ok ticket.upload_url ticket.file_id

send_to_slack-asks :
    (config : Config) (world : World) (path : String)
    → count asks (send_to_slack config world path).sent ≡ 0
unfolding send_to_slack
send_to_slack-asks config world path =
    ground (arith, ask_ticket-asks config world path world.ticket)

pushed :
    (sent to_slack : List Event) (event : Event)
    → count asks sent ≡ 0
    → count asks to_slack ≡ 0
    → asks event ≡ false
    → count asks (sent ++ to_slack ++ event ∷ []) ≡ 0
pushed sent to_slack event h k other = ground (
  arith,
  h,
  k,
  other,
  count-append asks sent to_slack,
  count-append asks (sent ++ to_slack) (event ∷ []),
)

finish-asks :
    (metrics : Figures) (path : String) (sent : List Event) (kept : Option Pruned)
    (to_slack : List Event) (delivered : Option Bool)
    → count asks sent ≡ 0
    → count asks to_slack ≡ 0
    → count asks (finish metrics path sent kept to_slack delivered).sent ≡ 0
unfolding finish
finish-asks metrics path sent kept to_slack none h k =
    omega (arith, count-append asks sent to_slack, h, k)
finish-asks metrics path sent kept to_slack (some delivered) h k =
    pushed sent to_slack (push metrics delivered) h k refl

with_report-asks :
    (config : Config) (world : World) (metrics : Figures) (narrated : Narrated)
    (written : Option Report)
    → count asks narrated.sent ≡ 0
    → count asks (with_report config world metrics narrated written).sent ≡ 0
unfolding with_report
with_report-asks config world metrics narrated none h = h
with_report-asks config world metrics narrated (some report) h =
    let pruned = prune_old_reports world.unlinks (world.glob report) config.pdf_retention_count in
    let slack = send_to_slack config world report.name in
    finish-asks metrics report.name (narrated.sent ++ write_pdf metrics narrated.narrative ∷ [])
      (some pruned) slack.sent slack.delivered
      (omega
        (arith, h, count-append asks narrated.sent (write_pdf metrics narrated.narrative ∷ [])))
      (send_to_slack-asks config world report.name)

summary-skipped :
    (config : Config) (world : World) (metrics : Figures)
    → is_hosted config.llm_api_url ≡ true
    → config.llm_allow_hosted ≡ false
    → generate_executive_summary config world metrics ≡ record { sent = []; narrative = skipped }
unfolding generate_executive_summary
summary-skipped config world metrics hosted refused = rw (hosted, refused) refl

-- Where the model's address is taken for a hosted one and that is not allowed, no run sends the model
-- anything, however the search, the report and the delivery go.
pub hosted_not_asked :
    (clock : Clock) (config : Config) (world : World)
    → is_hosted config.llm_api_url ≡ true
    → config.llm_allow_hosted ≡ false
    → count asks (run_reporting_pipeline clock config world).sent ≡ 0
unfolding run_reporting_pipeline
hosted_not_asked clock config world hosted refused =
    let metrics = fetch_and_calculate_metrics clock world.search in
    with_report-asks config world metrics (generate_executive_summary config world metrics)
      world.written
      (ap (λ n. count asks n.sent) (summary-skipped config world metrics hosted refused))
