-- ===== src/Broker/Approve.antt =====
-- `approve` and `list_pending` of scripts/hive-mind-broker/app.py.
pub mod Laws
use suburban_soc.Base.{
  ℕ, String, Bool, not, ◌||◌, Option, none, some, List, ◌++◌, ◌==◌, nat_eq, string_eq,
  if◌then◌else◌, length,
}
use suburban_soc.Signing.{Crypto}
use suburban_soc.Tenant.{safe_tenant}
use suburban_soc.Broker.Exclusion.{Ipaddress, is_excluded_ip}
use suburban_soc.Broker.Router.{Sent}
use suburban_soc.Broker.Fleet.{Tally}
use suburban_soc.Broker.Gate.{Json, null, str, other, Reply, ok, http, crash, verify_request}
use suburban_soc.Broker.Queue.{
  Row, Result, invalid_ip, exclusion_list, no_routers, counts, pending_rows, last_with_id,
  claimed_approver, with_claim,
}
use suburban_soc.Broker.Service.{
  Config, Payload, Request, State, append_action, blank_row, routers_of, fleet, entered,
}

pub record ApproveReply : Type 0 where
  pub approver : String
  pub attacker_ip : String
  pub tenant : String
  pub router_count : ℕ
  pub tally : Tally

module _ (c : Crypto) (ip : Ipaddress) (is_control : ℕ → Bool) (cfg : Config) where
  -- The rows that `approve` appends
  unfoldable pub denied_row : Request → Payload → String → Result → Row
  denied_row q payload id result =
      with_claim
        (record (blank_row id q.now "denied") {
          approver = some cfg.approver_identity;
          result = some result;
        })
        (claimed_approver is_control payload.approver)

  unfoldable pub approved_row : Request → Payload → String → String → Tally → Row
  approved_row q payload id tenant tally =
      with_claim
        (record (blank_row id q.now "approved") {
          approver = some cfg.approver_identity;
          tenant = some tenant;
          result =
              some
                (counts tally.success_count (length (routers_of cfg tenant)) tally.unknown_count);
        })
        (claimed_approver is_control payload.approver)

  approve_done :
      Request
      → Payload
      → String
      → String
      → String
      → Option (Tally × List Sent)
      → State
      → Reply ApproveReply × State
  approve_done q payload id attacker_ip tenant none s = (crash, s)
  approve_done q payload id attacker_ip tenant (some (tally, sent)) s =
      let total = length (routers_of cfg tenant) in
      (
        ok (record {
          approver = cfg.approver_identity;
          attacker_ip = attacker_ip;
          tenant = tenant;
          router_count = total;
          tally = tally;
        }),
        append_action (approved_row q payload id tenant tally) (record s { sent = s.sent ++ sent }),
      )

  approve_targets :
      Request → Payload → String → String → String → State → Reply ApproveReply × State
  unfolding approve_done
  approve_targets q payload id attacker_ip tenant s =
      if length (routers_of cfg tenant) == 0
      then (
        http 422 "no routers for tenant" none,
        append_action (denied_row q payload id (no_routers tenant)) s,
      )
      else approve_done q payload id attacker_ip tenant (fleet ip cfg q attacker_ip tenant) s

  approve_action :
      Request → Payload → String → Row → Option String → State → Reply ApproveReply × State
  unfolding approve_targets
  approve_action q payload id action none s = (crash, s)
  approve_action q payload id action (some attacker_ip) s =
      elim (is_excluded_ip ip q.exclusions attacker_ip) [
        | none ↦ (
          http 422 "invalid attacker_ip in drafted action" none,
          append_action (denied_row q payload id invalid_ip) s,
        )
        | some excluded ↦
            if excluded
            then (
              http 422 "attacker_ip is excluded" none,
              append_action (denied_row q payload id exclusion_list) s,
            )
            else approve_targets q payload id attacker_ip
                (safe_tenant (elim action.tenant [ none ↦ "" | some t ↦ t ])) s
      ]

  approve_found : Request → Payload → String → Option Row → State → Reply ApproveReply × State
  unfolding approve_action
  approve_found q payload id none s = (http 404 "no pending action" none, s)
  approve_found q payload id (some action) s =
      approve_action q payload id action action.attacker_ip s

  -- `pending.get(action_id)` on a list or a dictionary raises: these have no hash.
  approve_id : Request → Payload → Json → State → Reply ApproveReply × State
  unfolding approve_found
  approve_id q payload null s = (http 400 "missing 'id'" none, s)
  approve_id q payload (other type_name b) s =
      if not b
      then (http 400 "missing 'id'" none, s)
      else if type_name == "list" || type_name == "dict"
      then (crash, s)
      else (http 404 "no pending action" none, s)
  approve_id q payload (str id) s =
      if id == ""
      then (http 400 "missing 'id'" none, s)
      else approve_found q payload id (last_with_id id (pending_rows s.queue)) s

  approve_entered : Request → Reply (Option Payload) → State → Reply ApproveReply × State
  unfolding approve_id
  approve_entered q (http status detail headers) s = (http status detail headers, s)
  approve_entered q crash s = (crash, s)
  approve_entered q (ok none) s = (crash, s)
  approve_entered q (ok (some payload)) s = approve_id q payload payload.id s

  unfoldable pub approve :
      (String → Option (Option Payload)) → Request → State → Reply ApproveReply × State
  unfolding approve_entered
  approve loads q s = let (reply, s') = entered c cfg loads q s in approve_entered q reply s'

  -- `GET /pending` signs the empty body.
  unfoldable pub list_pending : Request → State → Reply (List Row) × State
  list_pending q s =
      let (reply, gate) = verify_request c cfg.window cfg.secret q.message q.now s.gate in
      (
        elim reply [
          | ok _ ↦ ok (pending_rows s.queue)
          | http status detail headers ↦ http status detail headers
          | crash ↦ crash
        ],
        record s { gate = gate },
      )
