-- ===== src/Broker/Service.antt =====
-- What the endpoints of scripts/hive-mind-broker/app.py share: the settings, the state, a request
-- with what its handling meets, and the checks that they begin with.
use suburban_soc.Base.{
  ℕ, String, Bool, false, not, Option, none, some, List, [], ◌∷◌, ◌++◌, ◌==◌, nat_eq, string_eq,
  if◌then◌else◌,
}
use suburban_soc.Signing.{Crypto, Signed}
use suburban_soc.Broker.Exclusion.{Ipaddress}
use suburban_soc.Broker.Inventory.{Router, get_routers_for_tenant}
use suburban_soc.Broker.Router.{Link, Sent}
use suburban_soc.Broker.Fleet.{Tally, dispatch_block_to_all}
use suburban_soc.Broker.Gate.{Json, null, str, other, Reply, ok, http, GateState, verify_and_parse}
use suburban_soc.Broker.Queue.{Row}

-- The settings that the module reads from its environment, and what it loads when it starts.
pub record Config : Type 0 where
  pub window : ℕ
  pub secret : String
  pub blocklist_set : String
  pub approver_identity : String
  pub dispatch_identity : String
  pub autonomous_block_enabled : Bool
  pub inventory : List Router

-- The keys of a JSON object that the endpoints read; `tenant_id` is the text `str(value or "")`.
pub record Payload : Type 0 where
  pub attacker_ip : Json
  pub tenant_id : String
  pub approver : Json
  pub request_id : Json
  pub id : Json

-- A request with what its handling meets: the second, the new `uuid`, the exclusion list and the
-- links to the routers that it may dispatch to.
pub record Request : Type 0 where
  pub message : Signed
  pub now : ℕ
  pub uuid : String
  pub exclusions : Option (List String)
  pub links : ℕ → Link

pub record State : Type 0 where
  pub gate : GateState
  pub queue : List Row
  pub sent : List Sent

abbrev pub append_action : Row → State → State
append_action row s = record s { queue = s.queue ++ row ∷ [] }

abbrev pub blank_row : String → ℕ → String → Row
blank_row id ts status = record {
  id = id;
  ts = ts;
  status = status;
  tenant = none;
  attacker_ip = none;
  router_count = none;
  approver = none;
  result = none;
  request_id = none;
  upstream_approver_claimed = none;
}

abbrev pub truthy : Json → Bool
truthy null = false
truthy (str s) = not (s == "")
truthy (other _ b) = b

module _ (ip : Ipaddress) where
  -- `validate_ip` on a value that is there; none is its `ValueError`
  unfoldable pub validate_ip : Json → Option String
  validate_ip null = none
  validate_ip (other _ _) = none
  validate_ip (str s) = elim (ip.ip_address s) [ none ↦ none | some _ ↦ some s ]

  -- `if not attacker_ip: …` and the `try` around `validate_ip`
  unfoldable pub checked_ip : Json → Option String → Reply String
  unfolding validate_ip
  checked_ip v headers =
      if not (truthy v)
      then http 400 "Payload missing attacker_ip" headers
      else elim (validate_ip v) [
        | none ↦ http 400 "attacker_ip is not a valid IP address" headers
        | some s ↦ ok s
      ]

abbrev pub routers_of : Config → String → List Router
routers_of cfg tenant = get_routers_for_tenant cfg.inventory tenant

module _ (ip : Ipaddress) (cfg : Config) where
  abbrev pub fleet : Request → String → String → Option (Tally × List Sent)
  fleet q attacker_ip tenant =
      dispatch_block_to_all ip cfg.blocklist_set attacker_ip q.exclusions (routers_of cfg tenant)
        q.links

module _ (c : Crypto) (cfg : Config) where
  -- `loads` is `json.loads`: none is a text that is no JSON, `some none` one that is no object.
  module _ (loads : String → Option (Option Payload)) where
    abbrev pub entered : Request → State → Reply (Option Payload) × State
    entered q s =
        let (reply, gate) = verify_and_parse c cfg.window cfg.secret loads q.message q.now s.gate in
        (reply, record s { gate = gate })
