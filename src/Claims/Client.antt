-- ===== src/Claims/Client.antt =====
-- The client side of `claim_approval` and `_transition_claim`, request by request.
use suburban_soc.Base.{ℕ, String, Bool, true, false, Option, none, some}
use suburban_soc.Claims.Elastic.{
  Phase, claimed, released, resolved, Resolution, Claim, Version, Status, success, conflict,
  missing, failed, Got, found, absent, unread, Update,
}

-- Where an approval stands: before its request, after a 409, before the conditional write at the
-- version that it read, executing under the claim that it won, or done: with False, with an
-- exception, or after its execution.
pub data Pc : Type 0 where
  idle reading : Pc
  reclaiming : Version → Pc
  holding : Pc
  lost raised finished : Pc

-- The claim that an approver writes.
abbrev pub new_claim : String → ℕ → Claim
new_claim approver now = record {
  phase = claimed;
  approver = approver;
  timestamp = now;
  resolution = none;
}

-- `PUT _create`
unfoldable pub after_create : Status → Pc
after_create success = holding
after_create conflict = reading
after_create missing = raised
after_create failed = raised

-- The read after a 409
unfoldable pub after_get : Got → Pc
after_get absent = raised
after_get unread = raised
after_get (found v) = elim v.claim.phase [
  | claimed ↦ lost
  | released ↦ reclaiming v.version
  | resolved ↦ lost
]

-- The conditional write
unfoldable pub after_put : Status → Pc
after_put success = holding
after_put conflict = lost
after_put missing = raised
after_put failed = raised

-- Whether a transition is confirmed; none is an exception.
unfoldable pub after_post : Status → Option Bool
after_post success = some true
after_post conflict = some false
after_post missing = some true
after_post failed = none

-- `if_seq_no` and `if_primary_term` as they are given; none is the `ValueError` of a half-set pair.
pub condition : Option ℕ → Option ℕ → Option (Option Version)
condition none none = some none
condition (some n) (some t) = some (some (record { seq_no = n; primary_term = t }))
condition none (some t) = none
condition (some n) none = none

-- The fields that a manual transition adds; the agent's own transitions give no actor.
pub resolution_of : String → ℕ → Option String → Option String → Option Resolution
resolution_of identity now none reason = none
resolution_of identity now (some actor) reason = some (record {
  resolved_by = identity;
  resolved_at = now;
  resolution_reason = reason;
  resolution_actor_claimed = actor;
})

-- The request of `_transition_claim`, after its guards; none if it raises before it sends one.
unfoldable pub transition_request :
    (validated : Option String) (identity : String) (now : ℕ)
    → Phase
    → (actor reason : Option String) (if_seq_no if_primary_term : Option ℕ) → Option Update
unfolding condition resolution_of
transition_request none identity now phase actor reason n t = none
transition_request (some tenant) identity now phase actor reason n t = elim (condition n t) [
  | none ↦ none
  | some only_if ↦ some (record {
    phase = phase;
    resolution = resolution_of identity now actor reason;
    only_if = only_if;
  })
]
