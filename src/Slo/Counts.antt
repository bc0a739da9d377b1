-- ===== src/Slo/Counts.antt =====
-- `_count` and `_cardinality` of scripts/setup/ai_agent/slo_metrics.py, and the metrics that count
-- documents.
use suburban_soc.Base.{
  ℕ, ◌+◌, ◌*◌, String, Bool, true, false, Option, none, some, List, [], ◌∷◌, ltb, nat_eq, string_eq,
  if◌then◌else◌,
}
use suburban_soc.Slo.{
  Measured, measured, unavailable, ◌>>=◌, pos, Reading, no_data, number, volume, round_3, Clause,
  since, until, term, terms, exists, Cluster, read_ok,
}

abbrev pub or_zero : Option ℕ → ℕ
or_zero none = 0
or_zero (some n) = n

-- A number of documents as a value.
abbrev pub whole : ℕ → Reading
whole n = number (pos (1000 * n))

module _ (c : Cluster) where
  unfoldable pub count_of : String → List Clause → (strict : Bool) → Measured ℕ
  unfolding read_ok
  count_of index query strict = do n ← read_ok (c.counted index strict query); measured (or_zero n)

  unfoldable pub cardinality_of : String → List Clause → (field : String) → Measured ℕ
  unfolding read_ok
  cardinality_of index query field = do
    r ← read_ok (c.cardinality index query field)
    (if ltb 0 r.failed_shards then unavailable else measured r.distinct)

  abbrev pub reading_of : String → List Clause → Measured Reading
  reading_of index query = do n ← count_of index query false; measured (whole n)

  unfoldable pub stuck_approval_claims : (cutoff : Option String) → Measured Reading
  unfolding count_of
  stuck_approval_claims none = unavailable
  stuck_approval_claims (some age) =
      reading_of "agent-checkpoints-*" (term "phase" "CLAIMED" ∷ until "@timestamp" age ∷ [])

  -- Over the last hour each, unless it is set otherwise.
  unfoldable pub dns_answer_truncated_by_zeek_count : (hour : String) → Measured Reading
  unfolding count_of
  dns_answer_truncated_by_zeek_count hour =
      reading_of "logstash-security-*"
        (since "@timestamp" hour ∷ term "pipeline.dns_answer_truncated_by_zeek" "true" ∷ [])

  unfoldable pub zeek_path_nomatch_count : (hour : String) → Measured Reading
  unfolding count_of
  zeek_path_nomatch_count hour =
      reading_of "logstash-security-*"
        (since "@timestamp" hour ∷ term "pipeline.zeek_path_nomatch" "true" ∷ [])

  unfoldable pub intel_feed_stale_heartbeats : Measured Reading
  unfolding count_of
  intel_feed_stale_heartbeats =
      reading_of "threat-intel-meta" (since "@timestamp" "now-8h" ∷ term "status" "ok" ∷ [])

  unfoldable pub capture_loss_percent : (hour : String) → Measured Reading
  unfolding count_of read_ok
  capture_loss_percent hour = do
    loss ←
        read_ok
          (c.max_loss (since "@timestamp" hour ∷ term "event.dataset" "zeek.capture_loss" ∷ []))
    elim loss [
      | some v ↦ measured (number (pos v))
      | none ↦ (do
        flowing ←
            count_of "logstash-security-*"
              (since "@timestamp" hour
                ∷ term "event.module" "zeek"
                ∷ until "@timestamp" "now-30m"
                ∷ [])
              false
        (if ltb 0 flowing then unavailable else measured no_data))
    ]

  -- Metrics over the window.
  module _ (window : String) where
    abbrev pub win : Clause
    win = since "@timestamp" window

    unfoldable pub parse_error_pct : Measured Reading
    unfolding count_of
    parse_error_pct = do
      total ← count_of "logstash-security-*" (win ∷ []) false
      errs ← count_of "logstash-security-*" (win ∷ term "pipeline.error" "true" ∷ []) false
      measured (number (pos (if ltb 0 total then round_3 (100 * errs) total else 0)))

    unfoldable pub audit_write_failures : Measured Reading
    unfolding count_of
    audit_write_failures = reading_of "soc-agent-health-*" (win ∷ [])

    unfoldable pub broker_response_tampering : Measured Reading
    unfolding count_of
    broker_response_tampering = reading_of "soc-audit-*" (
        win
        ∷ terms "event.action.keyword"
            ("broker_response_signature_invalid" ∷ "broker_response_request_id_mismatch" ∷ [])
        ∷ term "event.outcome.keyword" "unknown"
        ∷ [])

    unfoldable pub raw_alert_volume : Measured Reading
    unfolding count_of cardinality_of
    raw_alert_volume =
        let index : String = "logstash-security-*,-logstash-security-quarantine-*" in
        let query = win ∷ exists "threat.technique.id" ∷ [] in
        do
          notices ← count_of index query false
          hits ← count_of ".alerts-security.alerts-*" (win ∷ []) true
          sources ← cardinality_of index query "source.ip"
          measured (
              volume (record {
                zeek_notices = notices;
                rule_hits = hits;
                distinct_sources = sources;
                value = notices + hits;
              }))

    unfoldable pub field_truncation_count : Measured Reading
    unfolding count_of
    field_truncation_count =
        reading_of "logstash-security-*" (win ∷ term "pipeline.truncated" "true" ∷ [])

    unfoldable pub field_byte_clamp_count : Measured Reading
    unfolding count_of
    field_byte_clamp_count =
        reading_of "logstash-security-*" (win ∷ term "pipeline.byte_clamped" "true" ∷ [])

    unfoldable pub oversized_field_count : Measured Reading
    unfolding count_of
    oversized_field_count =
        reading_of "logstash-security-*" (win ∷ term "pipeline.oversized" "true" ∷ [])

    unfoldable pub zeek_log_field_truncation_count : Measured Reading
    unfolding count_of
    zeek_log_field_truncation_count = reading_of "logstash-security-*" (
        win
        ∷ term "event.dataset" "zeek.weird"
        ∷ terms "name" ("log_string_field_truncated" ∷ "log_container_field_truncated" ∷ [])
        ∷ [])
