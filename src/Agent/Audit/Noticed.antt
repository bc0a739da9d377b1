-- ===== src/Agent/Audit/Noticed.antt =====
-- Records that are lost while their markers are stored make slo_metrics.py exit with another status
-- than 0, once there are more of them than its target allows.
use suburban_soc.Base.Http.{Answer, replied}
use suburban_soc.Base.Text.{starts_with, lower, glue}
use suburban_soc.Agent.Audit.{
  Action, Sent, is_acknowledged, health_marker, write_audit, checkpoint_written, checkpoint_or_warn,
}
use suburban_soc.Slo.{measured, ℤ, pos, negsuc, no_data, number, volume, Cluster, since, read_ok}
use suburban_soc.Slo.Counts.{whole, audit_write_failures, count_of}
use suburban_soc.Slo.Report.{Settings, Outside, metrics, Sample, finished, main}
use suburban_soc.Slo.Report.Healthy.{Reaches, Fulfils, exit_zero_iff}
use suburban_soc.Base.{
  ℕ, ◌*◌, ◌≤◌, ◌<◌, String, ◌≡◌, refl, ◌≢◌, inl, inr, Bool, true, false, not, ◌&&◌, some, List, [],
  ◌∷◌, ◌++◌, arith, nat_eq, string_eq, if◌then◌else◌, Bool-cases, count, count-append,
}

-- One call of `write_audit` or of `_checkpoint_or_warn`, with the replies to it.
pub data Write : Type 0 where
  audited : Action → Answer Bool → Answer Bool → Write
  checkpointed : (tenant phase : String) → Answer (Unit {0}) → Answer Bool → Write

abbrev pub sent_by : Write → List Sent
sent_by (audited a reply marker_reply) = write_audit a reply marker_reply
sent_by (checkpointed tenant phase reply marker_reply) =
    checkpoint_or_warn tenant phase reply marker_reply

abbrev pub sent_by_all : List Write → List Sent
sent_by_all [] = []
sent_by_all (w ∷ ws) = sent_by w ++ sent_by_all ws

-- Stored where the metric counts.
abbrev pub counted_there : Sent → Bool
counted_there s = starts_with "soc-agent-health-" s.index && s.acknowledged

-- The record itself was lost, and the marker was not.
abbrev pub marked_loss : Write → Bool
marked_loss (audited a reply marker_reply) =
    not (is_acknowledged reply) && is_acknowledged marker_reply
marked_loss (checkpointed tenant phase reply marker_reply) =
    not (checkpoint_written reply) && is_acknowledged marker_reply

audit_elsewhere :
    (tenant : String) → starts_with "soc-agent-health-" (glue "soc-audit-" tenant) ≡ false
unfolding starts_with
audit_elsewhere tenant = refl

marker_there :
    (tenant : String) → starts_with "soc-agent-health-" (glue "soc-agent-health-" tenant) ≡ true
unfolding starts_with
marker_there tenant = refl

one_marker :
    (action tenant : String) (reply : Answer Bool)
    → count counted_there (health_marker action tenant reply ∷ [])
      ≡ (if is_acknowledged reply then 1 else 0)
unfolding health_marker
one_marker action tenant reply = ground (arith, marker_there tenant)

marked-once : (w : Write) → count counted_there (sent_by w) ≡ (if marked_loss w then 1 else 0)
unfolding write_audit checkpoint_or_warn
marked-once (audited a reply marker_reply) = elim (Bool-cases (is_acknowledged reply)) [
  | inl written ↦ rw written (ground (arith, audit_elsewhere a.tenant))
  | inr gone ↦
      rw gone (ground (arith, audit_elsewhere a.tenant, one_marker a.action a.tenant marker_reply))
]
marked-once (checkpointed tenant phase reply marker_reply) =
    elim (Bool-cases (checkpoint_written reply)) [
      | inl written ↦ rw written refl
      | inr gone ↦ rw gone (one_marker (glue "checkpoint_write_" (lower phase)) tenant marker_reply)
    ]

marked-all : (ws : List Write) → count counted_there (sent_by_all ws) ≡ count marked_loss ws
marked-all [] = refl
marked-all (w ∷ ws) =
    omega
      (arith, count-append counted_there (sent_by w) (sent_by_all ws), marked-once w, marked-all ws)

above_target :
    (n t : ℕ) (lower : Bool) (v : ℤ)
    → t < 1000 * n
    → some true ≡ some lower
    → v ≡ pos (1000 * n)
    → ¬ Reaches lower v t
above_target n t false v p l e h = cc
above_target n t true (negsuc m) p l e h = cc
above_target n t true (pos m) p l e h = ground arith

failures_unmet :
    (s : Settings) (n : ℕ)
    → s.target "audit_write_failures" < 1000 * n
    → ¬ Fulfils s ("audit_write_failures", measured (whole n))
failures_unmet s n p (no_data, e, h) = cc
failures_unmet s n p (volume v, e, h) = cc
failures_unmet s n p (number v, e, inl free) = cc
failures_unmet s n p (number v, e, inr (lower, l, reaches)) =
    above_target n (s.target "audit_write_failures") lower v p l (cc) reaches

counted_failures :
    (c : Cluster) (window : String) (n : ℕ)
    → c.counted "soc-agent-health-*" false (since "@timestamp" window ∷ [])
      ≡ replied 200 (some (some n))
    → audit_write_failures c window ≡ measured (whole n)
unfolding audit_write_failures count_of read_ok
counted_failures c window n h = rw h refl

-- More records lost than the target allows, each with its marker stored and counted within the window:
-- `main` does not exit with 0.
pub losses_detected :
    (s : Settings) (o : Outside) (c later : Cluster) (reply : Answer (Unit {0})) (ws : List Write)
    (n : ℕ)
    → c.counted "soc-agent-health-*" false (since "@timestamp" s.window ∷ [])
      ≡ replied 200 (some (some n))
    → count counted_there (sent_by_all ws) ≤ n
    → s.target "audit_write_failures" < 1000 * count marked_loss ws
    → (sample : Sample) (notified : Bool) → main s o c later reply ≢ finished sample notified 0
unfolding metrics
losses_detected s o c later reply ws n counts stored over sample notified ended =
    let (set, ok, all, post) = (exit_zero_iff s o c later reply).0 (sample, notified, ended) in
    failures_unmet s n (omega (arith, marked-all ws, stored, over))
      (rw (counted_failures c s.window n counts) at all.1.1.1.1.1.1.1.1.1.0)
