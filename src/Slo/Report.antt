-- ===== src/Slo/Report.antt =====
-- `main` of scripts/setup/ai_agent/slo_metrics.py: all metrics against their targets, the sample that
-- is stored, and the exit status.

pub mod Healthy
pub mod Detects
use suburban_soc.Base.{
  ℕ, String, Bool, true, false, Option, none, some, List, [], ◌∷◌, ltb, leb, ◌==◌, nat_eq,
  string_eq, if◌then◌else◌, length, any,
}
use suburban_soc.Base.Http.{Answer, lost, replied}
use suburban_soc.Slo.{
  Measured, measured, unavailable, ℤ, pos, negsuc, Reading, no_data, number, volume, DocRef,
  Cluster,
}
use suburban_soc.Slo.Counts.{
  stuck_approval_claims, dns_answer_truncated_by_zeek_count, zeek_path_nomatch_count,
  intel_feed_stale_heartbeats, capture_loss_percent, parse_error_pct, audit_write_failures,
  broker_response_tampering, raw_alert_volume, field_truncation_count, field_byte_clamp_count,
  oversized_field_count, zeek_log_field_truncation_count,
}
use suburban_soc.Slo.Ages.{
  mttd, mttr, Layer, coverage, Cases, false_positive_pct, ingest_lag_seconds,
  zeek_ingest_lag_seconds, suricata_ingest_lag_seconds, soc_health_stale_seconds,
}
use suburban_soc.Slo.Claims.{
  orphaned_claims, claimed_snapshot, vanished_claims_detail, vanished_claims,
}
use suburban_soc.Slo.Intel.{intel_indicator_actual_count, intel_indicator_count_drop_pct}
use suburban_soc.Slo.Access.{Grant, check_privileges}

-- The environment: windows and ages as texts of date arithmetic, `none` for a number that is none;
-- the targets in thousandths.
pub record Settings : Type 0 where
  pub has_password : Bool
  pub has_topic : Bool
  pub window : String
  pub dns_window : String
  pub nomatch_window : String
  pub loss_window : String
  pub stuck_cutoff : Option String
  pub orphan_cutoff : Option String
  pub snapshot_age : String
  pub count_age : String
  pub tolerance : ℕ
  pub target : String → ℕ

-- What is read from outside Elasticsearch.
pub record Outside : Type 0 where
  pub layer : Layer
  pub cases : Cases
  pub role : Option (List Grant)

-- LOWER_BETTER, whose keys are those of TARGETS.
abbrev pub lower_better : List (String × Bool)
lower_better =
    ("mttd_minutes", true)
    ∷ ("mttr_minutes", true)
    ∷ ("coverage_techniques", false)
    ∷ ("false_positive_pct", true)
    ∷ ("ingest_lag_seconds", true)
    ∷ ("parse_error_pct", true)
    ∷ ("audit_write_failures", true)
    ∷ ("stuck_approval_claims", true)
    ∷ ("orphaned_claims", true)
    ∷ ("vanished_claims", true)
    ∷ ("capture_loss_max_pct", true)
    ∷ ("intel_feed_stale_heartbeats", false)
    ∷ ("intel_indicator_count_drop_pct", true)
    ∷ ("zeek_path_nomatch_count", true)
    ∷ ("broker_response_tampering_count", true)
    ∷ ("dns_answer_truncated_by_zeek_count", true)
    ∷ ("zeek_ingest_lag_seconds", true)
    ∷ ("suricata_ingest_lag_seconds", true)
    ∷ ("soc_health_stale_seconds", true)
    ∷ []

abbrev pub breach_if_na : List String
breach_if_na =
    "ingest_lag_seconds" ∷ "zeek_ingest_lag_seconds" ∷ "suricata_ingest_lag_seconds"
    ∷ "soc_health_stale_seconds" ∷ []

abbrev pub no_target : List String
no_target =
    "raw_alert_volume" ∷ "field_truncation_count" ∷ "field_byte_clamp_count"
    ∷ "oversized_field_count" ∷ "zeek_log_field_truncation_count" ∷ []

abbrev pub contains : List String → String → Bool
contains names name = any (λ n. n == name) names

abbrev pub lower_of : List (String × Bool) → String → Option Bool
lower_of [] name = none
lower_of ((n, lower) ∷ rows) name =
    let rest = lower_of rows name in if n == name then some lower else rest

abbrev pub Row : Type 0
Row = String × Measured Reading

-- `metric_fns`, each run.
unfoldable pub metrics : Settings → Outside → Cluster → List Row
unfolding stuck_approval_claims dns_answer_truncated_by_zeek_count zeek_path_nomatch_count
    intel_feed_stale_heartbeats capture_loss_percent parse_error_pct audit_write_failures
    broker_response_tampering raw_alert_volume field_truncation_count field_byte_clamp_count
    oversized_field_count zeek_log_field_truncation_count mttd mttr coverage false_positive_pct
    ingest_lag_seconds zeek_ingest_lag_seconds suricata_ingest_lag_seconds soc_health_stale_seconds
    orphaned_claims vanished_claims intel_indicator_count_drop_pct
metrics s o c =
    ("mttd_minutes", mttd c s.window)
    ∷ ("mttr_minutes", mttr c s.window)
    ∷ ("coverage_techniques", coverage o.layer)
    ∷ ("false_positive_pct", false_positive_pct o.cases)
    ∷ ("ingest_lag_seconds", ingest_lag_seconds c)
    ∷ ("zeek_ingest_lag_seconds", zeek_ingest_lag_seconds c)
    ∷ ("suricata_ingest_lag_seconds", suricata_ingest_lag_seconds c)
    ∷ ("soc_health_stale_seconds", soc_health_stale_seconds c s.tolerance)
    ∷ ("parse_error_pct", parse_error_pct c s.window)
    ∷ ("audit_write_failures", audit_write_failures c s.window)
    ∷ ("broker_response_tampering_count", broker_response_tampering c s.window)
    ∷ ("stuck_approval_claims", stuck_approval_claims c s.stuck_cutoff)
    ∷ ("orphaned_claims", orphaned_claims c s.orphan_cutoff)
    ∷ ("vanished_claims", vanished_claims c s.snapshot_age)
    ∷ ("raw_alert_volume", raw_alert_volume c s.window)
    ∷ ("field_truncation_count", field_truncation_count c s.window)
    ∷ ("field_byte_clamp_count", field_byte_clamp_count c s.window)
    ∷ ("oversized_field_count", oversized_field_count c s.window)
    ∷ ("zeek_log_field_truncation_count", zeek_log_field_truncation_count c s.window)
    ∷ ("dns_answer_truncated_by_zeek_count", dns_answer_truncated_by_zeek_count c s.dns_window)
    ∷ ("zeek_path_nomatch_count", zeek_path_nomatch_count c s.nomatch_window)
    ∷ ("capture_loss_max_pct", capture_loss_percent c s.loss_window)
    ∷ ("intel_feed_stale_heartbeats", intel_feed_stale_heartbeats c)
    ∷ ("intel_indicator_count_drop_pct", intel_indicator_count_drop_pct c s.count_age)
    ∷ []

-- `val > target` and `val < target`
abbrev pub above : ℤ → ℕ → Bool
above (pos n) t = ltb t n
above (negsuc n) t = false

abbrev pub below : ℤ → ℕ → Bool
below (pos n) t = ltb n t
below (negsuc n) t = true

-- Whether a metric with a target is breached; `none` is an exception: a name that is not among the
-- keys, or a value that is no number.
abbrev pub breached : String → (target : ℕ) → Bool → Measured Reading → Option Bool
breached name t lower unavailable = some true
breached name t lower (measured no_data) = some (contains breach_if_na name)
breached name t lower (measured (number v)) = some (if lower then above v t else below v t)
breached name t lower (measured (volume v)) = none

abbrev pub of_lower : String → (target : ℕ) → Option Bool → Measured Reading → Option Bool
of_lower name t none m = none
of_lower name t (some lower) m = breached name t lower m

unfoldable pub judged : Settings → Row → Option Bool
judged s (name, m) =
    if contains no_target name
    then some false
    else of_lower name (s.target name) (lower_of lower_better name) m

abbrev pub add_breach : String → Option Bool → Option (List String) → Option (List String)
add_breach name none rest = none
add_breach name (some b) none = none
add_breach name (some b) (some names) = some (if b then name ∷ names else names)

-- The names of the metrics that are breached.
unfoldable pub breaches : Settings → List Row → Option (List String)
unfolding judged
breaches s [] = some []
breaches s ((name, m) ∷ rows) = add_breach name (judged s (name, m)) (breaches s rows)

-- The names of those that could not be measured.
abbrev pub add_error {ℓ} : {A : Type ℓ} → String → Measured A → List String → List String
add_error name (measured a) names = names
add_error name unavailable names = name ∷ names

unfoldable pub errors_of : List Row → List String
errors_of [] = []
errors_of ((name, m) ∷ rows) = add_error name m (errors_of rows)

pub data Status : Type 0 where
  error breach fine : Status

abbrev pub status_of : (breaches errors : List String) → Status
status_of bs (e ∷ es) = error
status_of (b ∷ bs) [] = breach
status_of [] [] = fine

-- The stored document: what later runs read of it, and its counts.
pub record Sample : Type 0 where
  pub breach_count : ℕ
  pub error_count : ℕ
  pub status : Status
  pub snapshot : Option (List DocRef)
  pub vanished_docs : List DocRef
  pub actual_count : Option ℕ

abbrev pub captured {ℓ} : {A : Type ℓ} → Measured A → Option A
captured unavailable = none
captured (measured a) = some a

abbrev pub or_empty {ℓ} : {A : Type ℓ} → Measured (List A) → List A
or_empty unavailable = []
or_empty (measured as') = as'

-- Whether storing the document fails.
abbrev pub index_failed : Answer (Unit {0}) → Bool
index_failed lost = true
index_failed (replied s b) = leb 300 s

-- `sys.exit`
abbrev pub exit_code : (breaches errors : List String) (failed : Bool) → ℕ
exit_code bs (e ∷ es) failed = 3
exit_code bs [] true = 3
exit_code (b ∷ bs) [] false = 2
exit_code [] [] false = 0

abbrev pub notifies : (topic : Bool) (breaches errors : List String) → Bool
notifies false bs es = false
notifies true [] [] = false
notifies true bs es = true

-- No password, an exception that nothing catches, or a run to the end.
pub data Outcome : Type 0 where
  refused crashed : Outcome
  finished : Sample → (notified : Bool) (exit : ℕ) → Outcome

unfoldable pub ended :
    Settings → (later : Cluster) → Answer (Unit {0}) → List String → Option (List String) → Outcome
unfolding claimed_snapshot vanished_claims_detail intel_indicator_actual_count
ended s later reply errors none = crashed
ended s later reply errors (some names) =
    finished
      (record {
        breach_count = length names;
        error_count = length errors;
        status = status_of names errors;
        snapshot = captured (claimed_snapshot later);
        vanished_docs = or_empty (vanished_claims_detail later s.snapshot_age);
        actual_count = captured (intel_indicator_actual_count later);
      })
      (notifies s.has_topic names errors) (exit_code names errors (index_failed reply))

-- `c` is what the metrics see, and `later` what the captures behind them see.
unfoldable pub main :
    Settings → Outside → (c later : Cluster) → (reply : Answer (Unit {0})) → Outcome
unfolding metrics breaches errors_of check_privileges ended
main s o c later reply =
    let rows = metrics s o c in
    let errors =
      add_error "slo_metrics_reader_privileges" (check_privileges c o.role) (errors_of rows) in
    if s.has_password then ended s later reply errors (breaches s rows) else refused
