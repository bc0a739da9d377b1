-- ===== src/Agent/Audit.antt =====
-- `write_audit`, `_write_audit_health_marker` and `_checkpoint_or_warn` of
-- scripts/setup/ai_agent/agent.py, with `write_checkpoint` of checkpoints.py. None of them raises: a
-- write is the list of the records that it sends, each with whether it was acknowledged.
pub mod Noticed
use suburban_soc.Base.Http.{Answer, lost, replied}
use suburban_soc.Base.Text.{lower, glue}
use suburban_soc.Base.{
  ℕ, zero, suc, ◌+◌, ◌-◌, ◌*◌, ◌^◌, ◌≤◌, ◌<◌, String, ◌≡◌, refl, sym, ap, ◌∙◌, ◌≢◌, ◌↔◌, ◌⊎◌, inl,
  inr, Bool, true, false, not, ◌&&◌, ◌||◌, Option, none, some, List, [], ◌∷◌, ◌++◌, map, arith, ltb,
  leb, Eq, ◌==◌, nat_eq, string_eq, beq_refl, ne_of_beq, eq_of_beq, All-mono, if◌then◌else◌,
  Bool-cases, Option-cases, length, select, any, count, All, length-append, select-append,
  any-append, count-append, count-le-length, All-append, All-of,
}

-- The fields of an audit record, without its time.
pub record Action : Type 0 where
  pub action : String
  pub actor : String
  pub tenant : String
  pub outcome : String
  pub target : String
  pub detail : String

pub data Body : Type 0 where
  audit : Action → Body
  health : (tenant target_action : String) → Body

-- A record that was sent to the `_bulk` of an index.
pub record Sent : Type 0 where
  pub index : String
  pub body : Body
  pub acknowledged : Bool

-- Status 200 and a body whose `errors` is false. A lost answer, another status and a body that is no
-- JSON end in the same `except`.
unfoldable pub is_acknowledged : Answer Bool → Bool
is_acknowledged lost = false
is_acknowledged (replied status none) = false
is_acknowledged (replied status (some errors)) = status == 200 && not errors

unfoldable pub health_marker : String → String → Answer Bool → Sent
unfolding is_acknowledged
health_marker action tenant reply = record {
  index = glue "soc-agent-health-" tenant;
  body = health tenant action;
  acknowledged = is_acknowledged reply;
}

-- The reply to the audit record, and the one to a marker, if it is sent.
unfoldable pub write_audit : Action → Answer Bool → Answer Bool → List Sent
unfolding health_marker
write_audit a reply marker_reply =
    let written = is_acknowledged reply in
    let sent : Sent = record {
      index = glue "soc-audit-" a.tenant;
      body = audit a;
      acknowledged = written;
    } in
    if written then sent ∷ [] else sent ∷ health_marker a.action a.tenant marker_reply ∷ []

-- `write_checkpoint` returns: the PUT is answered, and `raise_for_status` does not raise.
unfoldable pub checkpoint_written : Answer (Unit {0}) → Bool
checkpoint_written lost = false
checkpoint_written (replied status body) = not (leb 400 status && ltb status 600)

unfoldable pub checkpoint_or_warn : String → String → Answer (Unit {0}) → Answer Bool → List Sent
unfolding checkpoint_written health_marker
checkpoint_or_warn tenant phase reply marker_reply =
    if checkpoint_written reply
    then []
    else health_marker (glue "checkpoint_write_" (lower phase)) tenant marker_reply ∷ []
