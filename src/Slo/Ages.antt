-- ===== src/Slo/Ages.antt =====
-- The metrics of scripts/setup/ai_agent/slo_metrics.py about time, and those about ATT&CK coverage
-- and about closed cases.
use suburban_soc.Base.{
  ℕ, zero, suc, ◌+◌, ◌-◌, ◌*◌, String, Option, none, some, List, [], ◌∷◌, ltb, leb, nat_eq,
  string_eq, if◌then◌else◌,
}
use suburban_soc.Base.Http.{Answer}
use suburban_soc.Slo.{
  Measured, measured, unavailable, ◌>>=◌, ℤ, pos, negsuc, Reading, no_data, number, rounded,
  round_2, Clause, since, term, wildcard, exists, Cluster, read_ok, read_any,
}
use suburban_soc.Slo.Counts.{or_zero, whole}

-- The minutes of the alerts that are read and do not start before their original time, as their sum
-- in milliseconds and their number.
deltas : List (Option (ℕ × ℕ)) → ℕ × ℕ
deltas [] = (0, 0)
deltas (none ∷ hits) = deltas hits
deltas (some (start, original) ∷ hits) =
    let (total, n) = deltas hits in
    if leb original start then (total + (start - original), n + 1) else (total, n)

unfoldable pub mttd : Cluster → (window : String) → Measured Reading
unfolding read_ok deltas
mttd c window = do
  hits ← read_ok (c.alerts (since "@timestamp" window ∷ []))
  let (total, n) = deltas hits
  measured (if ltb 0 n then number (pos (round_2 total (60_000 * n))) else no_data)

unfoldable pub mttr : Cluster → (window : String) → Measured Reading
unfolding read_ok
mttr c window = do
  latency ←
      read_ok (c.mean_latency (since "@timestamp" window ∷ exists "response.latency_seconds" ∷ []))
  measured (elim latency [ none ↦ no_data | some v ↦ number (pos (rounded v 60)) ])

-- The layer file: unreadable, with a count of unique techniques among its metadata, or without.
pub data Layer : Type 0 where
  unreadable : Layer
  unique_techniques techniques : ℕ → Layer

unfoldable pub coverage : Layer → Measured Reading
coverage unreadable = unavailable
coverage (unique_techniques n) = measured (whole n)
coverage (techniques n) = measured (whole n)

-- What Kibana answers: the number of closed cases, and of those that are false positives.
pub record Cases : Type 0 where
  pub closed : Answer (Option ℕ)
  pub false_positives : Answer (Option ℕ)

unfoldable pub false_positive_pct : Cases → Measured Reading
unfolding read_any
false_positive_pct k = do
  total ← read_any k.closed
  fp ← read_any k.false_positives
  measured (
      number
        (pos (if ltb 0 (or_zero total) then round_2 (100 * or_zero fp) (or_zero total) else 0)))

abbrev pub negated : ℕ → ℤ
negated zero = pos 0
negated (suc n) = negsuc n

-- `round(now - newest, 1)`
abbrev pub tenths : (now newest : ℕ) → ℤ
tenths now newest =
    if leb newest now
    then pos (100 * rounded (now - newest) 100)
    else negated (100 * rounded (newest - now) 100)

-- The age of the newest document: the first row, whose timestamp may be unreadable.
abbrev pub age_of : ℕ → List (Option ℕ) → Measured Reading
age_of now [] = measured no_data
age_of now (none ∷ hits) = unavailable
age_of now (some t ∷ hits) = measured (number (tenths now t))

module _ (c : Cluster) where
  abbrev pub lag : List Clause → Measured Reading
  lag query = do hits ← read_any (c.newest "logstash-security-*" query); age_of c.now hits

  unfoldable pub ingest_lag_seconds : Measured Reading
  unfolding read_any rounded
  ingest_lag_seconds = lag []

  unfoldable pub zeek_ingest_lag_seconds : Measured Reading
  unfolding read_any rounded
  zeek_ingest_lag_seconds = lag (wildcard "event.dataset" "zeek.*" ∷ [])

  unfoldable pub suricata_ingest_lag_seconds : Measured Reading
  unfolding read_any rounded
  suricata_ingest_lag_seconds = lag (term "event.module" "suricata" ∷ [])

  -- An age further below zero than the tolerance is no measurement.
  abbrev pub not_ahead : (tolerance : ℕ) → Reading → Measured Reading
  not_ahead tolerance (number (negsuc n)) =
      if ltb tolerance (n + 1) then unavailable else measured (number (negsuc n))
  not_ahead tolerance r = measured r

  unfoldable pub soc_health_stale_seconds : (tolerance : ℕ) → Measured Reading
  unfolding read_any rounded
  soc_health_stale_seconds tolerance = do
    hits ← read_any (c.newest "soc-health" [])
    age ← age_of c.now hits
    not_ahead tolerance age
