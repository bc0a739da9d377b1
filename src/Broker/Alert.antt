-- ===== src/Broker/Alert.antt =====
-- `receive_alert` (`/webhook/alert`) of scripts/hive-mind-broker/app.py.
use suburban_soc.Base.{
  ℕ, String, Bool, Option, none, some, List, ◌++◌, ◌==◌, nat_eq, string_eq, if◌then◌else◌, length,
}
use suburban_soc.Signing.{Crypto}
use suburban_soc.Tenant.{safe_tenant}
use suburban_soc.Broker.Exclusion.{Ipaddress, is_excluded_ip}
use suburban_soc.Broker.Router.{Sent}
use suburban_soc.Broker.Fleet.{Tally}
use suburban_soc.Broker.Gate.{Reply, ok, http, crash}
use suburban_soc.Broker.Service.{
  Config, Payload, Request, State, append_action, blank_row, checked_ip, routers_of, fleet, entered,
}

pub data AlertReply : Type 0 where
  protected : String → AlertReply
  nothing_to_block : String → AlertReply
  dispatched : (attacker_ip : String) (routers : ℕ) (tenant : String) → AlertReply
  drafted : (attacker_ip id : String) → AlertReply

module _ (c : Crypto) (ip : Ipaddress) (is_control : ℕ → Bool) (cfg : Config) where
  -- The background task of an alert runs after the reply; an exception there changes nothing.
  alert_dispatched : Option (Tally × List Sent) → State → State
  alert_dispatched none s = s
  alert_dispatched (some (tally, sent)) s = record s { sent = s.sent ++ sent }

  alert_targets : Request → String → String → State → Reply AlertReply × State
  unfolding alert_dispatched
  alert_targets q attacker_ip tenant s =
      if length (routers_of cfg tenant) == 0
      then (ok (nothing_to_block tenant), s)
      else if cfg.autonomous_block_enabled
      then (
        ok (dispatched attacker_ip (length (routers_of cfg tenant)) tenant),
        alert_dispatched (fleet ip cfg q attacker_ip tenant) s,
      )
      else (
        ok (drafted attacker_ip q.uuid),
        append_action
            (record (blank_row q.uuid q.now "pending") {
              tenant = some tenant;
              attacker_ip = some attacker_ip;
              router_count = some (length (routers_of cfg tenant));
            })
            s,
      )

  alert_checked : Request → Payload → Reply String → State → Reply AlertReply × State
  unfolding alert_targets
  alert_checked q payload (http status detail headers) s = (http status detail headers, s)
  alert_checked q payload crash s = (crash, s)
  alert_checked q payload (ok attacker_ip) s = elim (is_excluded_ip ip q.exclusions attacker_ip) [
    | none ↦ (crash, s)
    | some excluded ↦
        if excluded
        then (ok (protected attacker_ip), s)
        else alert_targets q attacker_ip (safe_tenant payload.tenant_id) s
  ]

  alert_entered : Request → Reply (Option Payload) → State → Reply AlertReply × State
  unfolding alert_checked
  alert_entered q (http status detail headers) s = (http status detail headers, s)
  alert_entered q crash s = (crash, s)
  alert_entered q (ok none) s = (crash, s)
  alert_entered q (ok (some payload)) s =
      alert_checked q payload (checked_ip ip payload.attacker_ip none) s

  unfoldable pub receive_alert :
      (String → Option (Option Payload)) → Request → State → Reply AlertReply × State
  unfolding alert_entered
  receive_alert loads q s = let (reply, s') = entered c cfg loads q s in alert_entered q reply s'
