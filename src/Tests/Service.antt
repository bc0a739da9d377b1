-- ===== src/Tests/Service.antt =====
-- The broker with one drafted action: its approval, and requests around it.
use suburban_soc.Base.{
  ℕ, String, ◌≡◌, refl, Bool, false, Option, none, some, List, [], ◌∷◌, ◌==◌, nat_eq, string_eq,
  if◌then◌else◌,
}
use suburban_soc.Base.Text.{strip, before_hash, lower}
use suburban_soc.Signing.{verify, signature}
use suburban_soc.Tenant.{safe_tenant, matches_tenant_re}
use suburban_soc.Broker.Exclusion.{is_excluded_ip}
use suburban_soc.Broker.Inventory.{get_routers_for_tenant}
use suburban_soc.Broker.Router.{block_ip_on_router}
use suburban_soc.Broker.Fleet.{dispatch_block_to_all}
use suburban_soc.Broker.Fleet.Counts.{links_of}
use suburban_soc.Broker.Gate.{null, str, verify_request, verify_and_parse}
use suburban_soc.Broker.Queue.{last_with_id, pending_rows, Row}
use suburban_soc.Broker.Service.{Config, Payload, Request, State, blank_row}
use suburban_soc.Broker.Approve.{approve}
use suburban_soc.Broker.Session.{alert, dispatch, handle, serve}
use suburban_soc.Broker.Session.Once.{AsksFor, approve_once}
use suburban_soc.Broker.Session.Safety.{unverified_changes_nothing}
use suburban_soc.Tests.Fixtures.{crypto, addresses, address, number, signed}
use suburban_soc.Tests.Broker.{inventory, list, observed, tally}

abbrev config : Config
config = record {
  window = 60;
  secret = "k";
  blocklist_set = "blocked";
  approver_identity = "soc-approver";
  dispatch_identity = "soc-agent";
  autonomous_block_enabled = false;
  inventory = inventory;
}

abbrev payload : Payload
payload = record {
  attacker_ip = str "6.6.6.6";
  tenant_id = "acme";
  approver = null;
  request_id = null;
  id = str "a1";
}

abbrev loads : String → Option (Option Payload)
loads text = if text == "{}" then some (some payload) else none

abbrev is_control : ℕ → Bool
is_control n = n == 10

abbrev request : (text : String) (now : ℕ) → Option (List String) → Request
request text now exclusions = record {
  message = signed "" text "{}";
  now = now;
  uuid = "u";
  exclusions = exclusions;
  links = links_of observed;
}

abbrev draft : Row
draft = record (blank_row "a1" 50 "pending") { tenant = some "acme"; attacker_ip = some "6.6.6.6" }

abbrev drafted : State
drafted = record { gate = record { cache = []; denials = [] }; queue = draft ∷ []; sent = [] }

first-AsksFor : AsksFor crypto addresses is_control config loads (request "90" 100 list) "a1"
first-AsksFor = record { payload = payload; loaded = refl; names_id = refl }

again-AsksFor : AsksFor crypto addresses is_control config loads (request "100" 110 list) "a1"
again-AsksFor = record { payload = payload; loaded = refl; names_id = refl }

abbrev served : State
served =
    serve crypto addresses is_control config loads ((alert, request "0" 105 list) ∷ [])
      (approve crypto addresses is_control config loads (request "90" 100 list) drafted).1

approve_once_example :
    (approve crypto addresses is_control config loads (request "100" 110 list) served).1.sent
    ≡ served.sent
unfolding approve verify signature number verify_and_parse last_with_id pending_rows is_excluded_ip
    address strip before_hash get_routers_for_tenant safe_tenant matches_tenant_re lower
    dispatch_block_to_all block_ip_on_router
approve_once_example =
    approve_once crypto addresses is_control config loads "a1" (request "90" 100 list)
      (request "100" 110 list) drafted
      (record {
        approver = "soc-approver";
        attacker_ip = "6.6.6.6";
        tenant = "acme";
        router_count = 2;
        tally = tally;
      })
      ((alert, request "0" 105 list) ∷ []) first-AsksFor again-AsksFor refl

unverified_changes_nothing_example :
    ((handle crypto addresses is_control config loads dispatch (request "0" 100 list) drafted).queue
      ≡ draft ∷ [])
    × ((handle crypto addresses is_control config loads dispatch
          (request "0" 100 list)
          drafted).sent
        ≡ [])
unfolding verify_request verify number
unverified_changes_nothing_example =
    unverified_changes_nothing crypto addresses is_control config loads dispatch
      (request "0" 100 list) drafted refl
