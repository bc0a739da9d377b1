-- ===== src/Claims/Manual.antt =====
-- `cmd_resolve` of scripts/setup/ai_agent/manage_stuck_claims.py, over `get_claim` and the two
-- transitions of checkpoints.py.
pub mod Atomic
use suburban_soc.Base.{
  ℕ, ◌+◌, ◌*◌, String, Bool, true, false, not, ◌&&◌, Option, none, some, ltb, if◌then◌else◌,
}
use suburban_soc.Tenant.{validate_tenant_id}
use suburban_soc.Claims.Elastic.{Phase, claimed, released, resolved, Status, Update}
use suburban_soc.Claims.Client.{transition_request, after_post}

-- The arguments of the command; `released` is the value of `--outcome`.
pub record Args : Type 0 where
  pub tenant : String
  pub released : Bool
  pub actor : String
  pub reason : Option String
  pub max_age_min : ℕ
  pub force : Bool
  pub confirmed : Bool

-- The claim that `get_claim` returns: none for a timestamp that does not parse, or for a version
-- that is missing.
pub record Shown : Type 0 where
  pub phase : Phase
  pub timestamp : Option ℕ
  pub seq_no : Option ℕ
  pub primary_term : Option ℕ

-- `get_claim`: a claim, None, or an exception.
pub data Looked : Type 0 where
  shown : Shown → Looked
  no_claim : Looked
  unavailable : Looked

-- The exit status, none for an exception, and the update that was sent.
pub record Done : Type 0 where
  pub exit : Option ℕ
  pub sent : Option Update

abbrev stops : ℕ → Done
stops code = record { exit = some code; sent = none }

abbrev phase_of : Bool → Phase
phase_of true = released
phase_of false = resolved

module _ (identity : String) (now : ℕ) where
  -- `ok` or its exception, as the exit status
  exit_of : Option Bool → Option ℕ
  exit_of none = none
  exit_of (some true) = some 0
  exit_of (some false) = some 1

  send : Option Update → Status → Done
  unfolding exit_of
  send none status = record { exit = none; sent = none }
  send (some u) status = record { exit = exit_of (after_post status); sent = some u }

  transitioned : Args → Option ℕ → Option ℕ → Status → Done
  unfolding send
  transitioned args (some n) (some t) status =
      send
        (transition_request (validate_tenant_id false args.tenant) identity now
          (phase_of args.released) (some args.actor) args.reason (some n) (some t))
        status
  transitioned args _ _ status = stops 1

  -- `age_seconds < max_age_min * 60`, without a difference
  unfoldable pub is_young : Args → ℕ → Bool
  is_young args timestamp = ltb now (timestamp + args.max_age_min * 60)

  aged : Args → Shown → Option ℕ → Status → Done
  unfolding is_young transitioned
  aged args c none status = stops 1
  aged args c (some timestamp) status =
      if is_young args timestamp && not args.force
      then stops 1
      else if not args.confirmed
      then stops 0
      else transitioned args c.seq_no c.primary_term status

  of_phase : Args → Shown → Phase → Status → Done
  unfolding aged
  of_phase args c claimed status = aged args c c.timestamp status
  of_phase args c released status = stops 1
  of_phase args c resolved status = stops 1

  -- `status` is the answer to the update, if one is sent.
  unfoldable pub cmd_resolve : Args → Looked → Status → Done
  unfolding of_phase
  cmd_resolve args unavailable status = record { exit = none; sent = none }
  cmd_resolve args no_claim status = stops 1
  cmd_resolve args (shown c) status = of_phase args c c.phase status
