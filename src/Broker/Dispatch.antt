-- ===== src/Broker/Dispatch.antt =====
-- `dispatch_block` (`/webhook/dispatch`) of scripts/hive-mind-broker/app.py.
use suburban_soc.Base.{
  ℕ, String, Bool, Option, none, some, List, ◌++◌, ◌==◌, nat_eq, string_eq, if◌then◌else◌, length,
}
use suburban_soc.Signing.{Crypto}
use suburban_soc.Tenant.{safe_tenant}
use suburban_soc.Broker.Exclusion.{Ipaddress, is_excluded_ip}
use suburban_soc.Broker.Router.{Sent}
use suburban_soc.Broker.Fleet.{Tally}
use suburban_soc.Broker.Gate.{Reply, ok, http, crash}
use suburban_soc.Broker.Queue.{counts, claimed_approver, safe_request_id, with_claim}
use suburban_soc.Broker.Service.{
  Config, Payload, Request, State, append_action, blank_row, checked_ip, routers_of, fleet, entered,
}

pub data DispatchReply : Type 0 where
  refused : (attacker_ip : String) (request_id : Option String) → DispatchReply
  no_targets : (attacker_ip : String) (request_id : Option String) (tenant : String) → DispatchReply
  executed :
      (attacker_ip : String) (request_id : Option String) (tenant : String) (router_count : ℕ)
      → Tally
      → DispatchReply

module _ (c : Crypto) (ip : Ipaddress) (is_control : ℕ → Bool) (cfg : Config) where
  dispatch_done :
      Request
      → Payload
      → String
      → String
      → Option (Tally × List Sent)
      → State
      → Reply DispatchReply × State
  dispatch_done q payload attacker_ip tenant none s = (crash, s)
  dispatch_done q payload attacker_ip tenant (some (tally, sent)) s =
      let request_id = safe_request_id is_control payload.request_id in
      let total = length (routers_of cfg tenant) in
      (
        ok (executed attacker_ip request_id tenant total tally),
        append_action
            (with_claim
              (record (blank_row q.uuid q.now "executed") {
                approver = some cfg.dispatch_identity;
                tenant = some tenant;
                attacker_ip = some attacker_ip;
                result = some (counts tally.success_count total tally.unknown_count);
                request_id = request_id;
              })
              (claimed_approver is_control payload.approver))
            (record s { sent = s.sent ++ sent }),
      )

  dispatch_targets : Request → Payload → String → String → State → Reply DispatchReply × State
  unfolding dispatch_done
  dispatch_targets q payload attacker_ip tenant s =
      if length (routers_of cfg tenant) == 0
      then (ok (no_targets attacker_ip (safe_request_id is_control payload.request_id) tenant), s)
      else dispatch_done q payload attacker_ip tenant (fleet ip cfg q attacker_ip tenant) s

  dispatch_checked : Request → Payload → Reply String → State → Reply DispatchReply × State
  unfolding dispatch_targets
  dispatch_checked q payload (http status detail headers) s = (http status detail headers, s)
  dispatch_checked q payload crash s = (crash, s)
  dispatch_checked q payload (ok attacker_ip) s =
      elim (is_excluded_ip ip q.exclusions attacker_ip) [
        | none ↦ (crash, s)
        | some excluded ↦
            if excluded
            then (ok (refused attacker_ip (safe_request_id is_control payload.request_id)), s)
            else dispatch_targets q payload attacker_ip (safe_tenant payload.tenant_id) s
      ]

  -- The headers of a refusal carry the request_id, if there is one and it is not empty.
  unfoldable pub request_id_header : Payload → Option String
  request_id_header payload = elim (safe_request_id is_control payload.request_id) [
    | none ↦ none
    | some id ↦ if id == "" then none else some id
  ]

  dispatch_entered : Request → Reply (Option Payload) → State → Reply DispatchReply × State
  unfolding dispatch_checked request_id_header
  dispatch_entered q (http status detail headers) s = (http status detail headers, s)
  dispatch_entered q crash s = (crash, s)
  dispatch_entered q (ok none) s = (crash, s)
  dispatch_entered q (ok (some payload)) s =
      dispatch_checked q payload (checked_ip ip payload.attacker_ip (request_id_header payload)) s

  unfoldable pub dispatch_block :
      (String → Option (Option Payload)) → Request → State → Reply DispatchReply × State
  unfolding dispatch_entered
  dispatch_block loads q s =
      let (reply, s') = entered c cfg loads q s in dispatch_entered q reply s'
