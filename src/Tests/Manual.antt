-- ===== src/Tests/Manual.antt =====
-- An operator releases the claim of an execution that never came back.
use suburban_soc.Base.{◌≡◌, refl, true, false, some, nat_eq, string_eq}
use suburban_soc.Tenant.{validate_tenant_id, matches_tenant_re}
use suburban_soc.Claims.Elastic.{claimed, released, Claim, success, Update, updated}
use suburban_soc.Claims.Client.{new_claim, transition_request}
use suburban_soc.Claims.Manual.{Args, Shown, is_young, cmd_resolve}
use suburban_soc.Claims.Manual.Atomic.{is_stuck, Effect, cmd_resolve-atomic}
use suburban_soc.Tests.Claims.{Store, service, version, held_by, wrote}

abbrev args : Args
args = record {
  tenant = "acme";
  released = true;
  actor = "op";
  reason = some "router was off";
  max_age_min = 30;
  force = false;
  confirmed = true;
}

abbrev claim : Shown
claim = record { phase = claimed; timestamp = some 10; seq_no = some 1; primary_term = some 1 }

abbrev release : Update
release = record {
  phase = released;
  resolution = some (record {
    resolved_by = "op@host";
    resolved_at = 5000;
    resolution_reason = some "router was off";
    resolution_actor_claimed = "op";
  });
  only_if = some (version 1);
}

abbrev before : Store
before = (some (held_by "ann" 10 1), 1)

abbrev changed : Claim
changed = updated release (new_claim "ann" 10)

cmd_resolve-atomic_example :
    (is_stuck "op@host" 5000 args claim ≡ true)
    × Effect service claim before
        (some (record { claim = changed; version = version 2 }), 2)
        success
unfolding cmd_resolve is_young transition_request validate_tenant_id matches_tenant_re
cmd_resolve-atomic_example =
    cmd_resolve-atomic service "op@host" 5000 args claim success success release before
      (some (record { claim = changed; version = version 2 }), 2) refl
      (held_by "ann" 10 1, refl, refl, wrote changed 1 (some (held_by "ann" 10 1)))
