-- ===== src/Tests/Slo.antt =====
-- Runs of slo_metrics.py over concrete answers.
use suburban_soc.Base.{
  ℕ, String, ◌≡◌, refl, ◌≢◌, ◌↔◌, Bool, true, false, none, some, List, [], ◌∷◌, map, arith, ◌==◌,
  nat_eq, string_eq, if◌then◌else◌, All,
}
use suburban_soc.Base.Http.{Answer, lost, replied}
use suburban_soc.Base.Text.{starts_with, ends_with}
use suburban_soc.Slo.{
  measured, found, Cluster, Clause, term, DocRef, Got, found, missing, Row, Entry, entry, stored,
}
use suburban_soc.Slo.Ages.{Layer}
use suburban_soc.Agent.Audit.{
  Action, is_acknowledged, write_audit, health_marker, checkpoint_or_warn, checkpoint_written,
}
use suburban_soc.Agent.Audit.Noticed.{Write, audited, checkpointed, losses_detected}
use suburban_soc.Slo.Claims.{is_claim}
use suburban_soc.Slo.Access.{check_privileges}
use suburban_soc.Slo.Report.Healthy.{Fulfils, exit_zero_iff}
use suburban_soc.Slo.Report.Detects.{deletion_detected}
use suburban_soc.Slo.Report.{
  metrics, index_failed, Status, Settings, Outside, Sample, Outcome, finished, main,
}
use suburban_soc.Slo.Report.Detects.{row_of}

abbrev claim : DocRef
claim = record { index = "agent-checkpoints-home-smith"; id = "a1.claim" }

abbrev all_there : DocRef → Got
all_there d = found

abbrev none_there : DocRef → Got
none_there d = missing

abbrev search : Bool → ℕ → List Clause → Answer (List Row)
search true n (term f v ∷ []) = replied 200 (some (row_of claim ∷ []))
search b n q = replied 200 (some [])

abbrev snapshots : (first : Bool) → List (List Entry)
snapshots true = []
snapshots false = (entry claim ∷ []) ∷ []

-- The answers at the first run, when nothing has been stored, and at later ones.
abbrev cluster : (first : Bool) → (DocRef → Got) → Cluster
cluster first look = record {
  counted =
      λ i strict q. replied 200 (some (some (if starts_with "threat-intel" i then 10 else 0)));
  cardinality = λ i q f. replied 200 (some (record { failed_shards = 0; distinct = 0 }));
  has_privileges = λ p. replied 200 (some (record { has_all_requested = true }));
  newest = λ i q. replied 200 (some (some 999_000 ∷ []));
  searched = search;
  mget = λ ds. replied 200 (some (map look ds));
  prior_snapshot = λ age. replied 200 (some (snapshots first));
  prior_count = λ age. replied 200 (some (stored 10 ∷ []));
  heartbeat = replied 200 (some (stored 10 ∷ []));
  alerts = λ q. replied 200 (some (some (90_000, 60_000) ∷ []));
  mean_latency = λ q. replied 200 (some none);
  max_loss = λ q. replied 200 (some (some 10));
  now = 1_000_000;
}

abbrev targets : String → ℕ
targets name =
    if name == "mttd_minutes"
    then 30_000
    else if name == "coverage_techniques"
    then 10_000
    else if ends_with "_seconds" name
    then 300_000
    else if name == "intel_feed_stale_heartbeats"
    then 1_000
    else if ends_with "_pct" name
    then 1_000
    else 0

abbrev settings : Settings
settings = record {
  has_password = true;
  has_topic = true;
  window = "now-7d";
  dns_window = "now-1h";
  nomatch_window = "now-1h";
  loss_window = "now-1h";
  stuck_cutoff = some "now-30m";
  orphan_cutoff = some "now-10m";
  snapshot_age = "now-2880m";
  count_age = "now-2880m";
  tolerance = 120_000;
  target = targets;
}

abbrev outside : Outside
outside = record {
  layer = Layer.unique_techniques 12;
  cases = record {
    closed = replied 200 (some (some 5));
    false_positives = replied 200 (some (some 0));
  };
  role = some (record { names = "soc-health" ∷ []; privileges = "read" ∷ [] } ∷ []);
}

abbrev created : Answer (Unit {0})
created = replied 201 (some tt)

abbrev exit_of : Outcome → ℕ
exit_of (finished sample n e) = e
exit_of o = 99

well : exit_of (main settings outside (cluster true all_there) (cluster true all_there) created) ≡ 0
unfolding main
well = refl

gone :
    exit_of (main settings outside (cluster false none_there) (cluster false none_there) created)
    ≡ 2
unfolding main
gone = refl

abbrev first_sample : Sample
first_sample = record {
  breach_count = 0;
  error_count = 0;
  status = Status.fine;
  snapshot = some (claim ∷ []);
  vanished_docs = [];
  actual_count = some 10;
}

ran :
    main settings outside (cluster true all_there) (cluster true all_there) created
    ≡ finished first_sample false 0
unfolding main
ran = refl

stored_again :
    (snapshot : List DocRef)
    → some (claim ∷ []) ≡ some snapshot
    → (cluster false none_there).prior_snapshot "now-2880m"
      ≡ replied 200 (some (map entry snapshot ∷ []))
stored_again snapshot e = cc

exit_zero_iff_example :
    let c = cluster true all_there in
    ((sample : Sample) × (n : Bool) × (main settings outside c c created ≡ finished sample n 0)) ↔ (
      (true ≡ true)
      × (check_privileges c outside.role ≡ measured tt)
      × All (Fulfils settings) (metrics settings outside c)
      × (index_failed created ≡ false))
exit_zero_iff_example =
    exit_zero_iff settings outside (cluster true all_there) (cluster true all_there) created

deletion_detected_example :
    main settings outside (cluster false none_there) (cluster false none_there) created
    ≢ finished first_sample false 0
unfolding is_claim
deletion_detected_example =
    deletion_detected settings outside outside (cluster true all_there) (cluster true all_there)
      (cluster false none_there) (cluster false none_there) created created none_there claim [] []
      [] first_sample false 0 ran refl refl refl stored_again (λ ds. refl) refl refl first_sample
      false

-- Three records are lost, one of them a checkpoint, and four markers are counted.
abbrev denied : Action
denied = record {
  action = "isolate";
  actor = "soc-agent";
  tenant = "acme";
  outcome = "denied";
  target = "6.6.6.6";
  detail = "";
}

abbrev lossy : List Write
lossy =
    audited denied lost (replied 200 (some false))
    ∷ audited denied (replied 200 (some true)) (replied 200 (some false))
    ∷ audited denied (replied 200 (some false)) lost
    ∷ checkpointed "acme" "EXECUTED" (replied 503 none) (replied 200 (some false))
    ∷ []

abbrev with_markers : Cluster
with_markers = record (cluster true all_there) {
  counted = λ index strict query. replied 200 (some (some 4));
}

losses_detected_example :
    main settings outside with_markers (cluster true all_there) created
    ≢ finished first_sample false 0
unfolding write_audit checkpoint_or_warn is_acknowledged health_marker checkpoint_written
    starts_with ends_with
losses_detected_example =
    losses_detected settings outside with_markers (cluster true all_there) created lossy 4 refl
      (omega arith) (omega arith) first_sample false
