-- ===== src/Broker/Session/Safety.antt =====
-- Unsigned requests, alerts without the autonomous flag, an unreadable exclusion list, and routers of
-- no tenant, at the broker's endpoints.
use suburban_soc.Base.{
  ℕ, ◌+◌, ◌≤◌, String, ◌≡◌, refl, ◌≢◌, Bool, true, false, not, Option, none, some, List, [], ◌∷◌,
  ◌++◌, arith, length, any, All, length-append, any-append,
}
use suburban_soc.Signing.{Crypto}
use suburban_soc.Tenant.{matches_tenant_re, safe_tenant}
use suburban_soc.Tenant.Slug.{safe_tenant-matches}
use suburban_soc.Broker.Exclusion.{Ipaddress, is_excluded_ip, is_excluded_ip_exact}
use suburban_soc.Broker.Router.{Sent}
use suburban_soc.Broker.Inventory.{str as yaml_str, other as yaml_other}
use suburban_soc.Broker.Fleet.{Tally}
use suburban_soc.Broker.Fleet.Reach.{router_of, dispatch_isolates}
use suburban_soc.Broker.Gate.{verify_request}
use suburban_soc.Broker.Gate.Denials.{lets_through, refused-parse}
use suburban_soc.Broker.Service.{Config, Payload, Request, State, fleet}
use suburban_soc.Broker.Alert.{receive_alert}
use suburban_soc.Broker.Dispatch.{dispatch_block}
use suburban_soc.Broker.Approve.{approve, list_pending}
use suburban_soc.Broker.Session.{Endpoint, alert, dispatch, approval, pending, handle, serve}

-- The router of a sent command carries no tenant, or one that is no slug.
abbrev pub untenanted : Sent → Bool
untenanted s = elim (router_of s).tenant [
  | none ↦ true
  | some v ↦ elim v [ yaml_str t ↦ not (matches_tenant_re t) | yaml_other ↦ true ]
]

untenanted-slug :
    (value : String) (s : Sent)
    → (router_of s).tenant ≡ some (yaml_str (safe_tenant value))
    → untenanted s ≡ false
untenanted-slug value s h = ground (arith, h, safe_tenant-matches value)

untenanted-All :
    (value : String) (sent : List Sent)
    → All (λ s. (router_of s).tenant ≡ some (yaml_str (safe_tenant value))) sent
    → any untenanted sent ≡ false
untenanted-All value [] h = refl
untenanted-All value (s ∷ rest) h = rw (untenanted-slug value s h.0) (untenanted-All value rest h.1)

refuses_all :
    (ip : Ipaddress) (attacker_ip : String) → is_excluded_ip ip none attacker_ip ≢ some false
refuses_all ip attacker_ip h = ground (arith, is_excluded_ip_exact ip none attacker_ip)

module _ (c : Crypto) (ip : Ipaddress) (is_control : ℕ → Bool) (cfg : Config)
    (loads : String → Option (Option Payload)) where
  -- A request that the gate does not let through, at any endpoint, appends no row to the queue and
  -- sends nothing to a router.
  pub unverified_changes_nothing :
      (e : Endpoint) (q : Request) (s : State)
      → lets_through (verify_request c cfg.window cfg.secret q.message q.now s.gate).0 ≡ false
      → ((handle c ip is_control cfg loads e q s).queue ≡ s.queue)
        × ((handle c ip is_control cfg loads e q s).sent ≡ s.sent)
  unfolding handle receive_alert dispatch_block approve list_pending
  unverified_changes_nothing alert q s h =
      ground (arith, refused-parse c cfg.window cfg.secret loads q.message q.now s.gate h)
  unverified_changes_nothing dispatch q s h =
      ground (arith, refused-parse c cfg.window cfg.secret loads q.message q.now s.gate h)
  unverified_changes_nothing approval q s h =
      ground (arith, refused-parse c cfg.window cfg.secret loads q.message q.now s.gate h)
  unverified_changes_nothing pending q s h = (refl, refl)

  -- Without the autonomous flag an alert only drafts: nothing is sent, and at most one row is added.
  pub alert_only_drafts :
      (q : Request) (s : State)
      → cfg.autonomous_block_enabled ≡ false
      → ((receive_alert c ip is_control cfg loads q s).1.sent ≡ s.sent)
        × (length (receive_alert c ip is_control cfg loads q s).1.queue ≤ length s.queue + 1)
  unfolding receive_alert
  alert_only_drafts q s h = grind (arith, length-append)

  -- While the exclusion list cannot be read, no endpoint sends anything to a router.
  pub unreadable_list_sends_nothing :
      (e : Endpoint) (q : Request) (s : State)
      → q.exclusions ≡ none
      → (handle c ip is_control cfg loads e q s).sent ≡ s.sent
  unfolding handle receive_alert dispatch_block approve list_pending
  unreadable_list_sends_nothing alert q s h = grind (arith, refuses_all)
  unreadable_list_sends_nothing dispatch q s h = grind (arith, refuses_all)
  unreadable_list_sends_nothing approval q s h = grind (arith, refuses_all)
  unreadable_list_sends_nothing pending q s h = refl

  untenanted-fleet :
      (q : Request) (attacker_ip value : String) (done : Tally × List Sent) (before : List Sent)
      → fleet ip cfg q attacker_ip (safe_tenant value) ≡ some done
      → any untenanted before ≡ false
      → any untenanted (before ++ done.1) ≡ false
  untenanted-fleet q attacker_ip value done before h k =
      rw (any-append, k)
        (untenanted-All value done.1 (
          dispatch_isolates ip cfg.blocklist_set attacker_ip q.exclusions cfg.inventory q.links
            (safe_tenant value) done.0 done.1 h))

  untenanted-handle :
      (e : Endpoint) (q : Request) (s : State)
      → any untenanted s.sent ≡ false
      → any untenanted (handle c ip is_control cfg loads e q s).sent ≡ false
  unfolding handle receive_alert dispatch_block approve list_pending
  untenanted-handle alert q s h = grind (arith, untenanted-fleet)
  untenanted-handle dispatch q s h = grind (arith, untenanted-fleet)
  untenanted-handle approval q s h = grind (arith, untenanted-fleet)
  untenanted-handle pending q s h = h

  -- Whatever requests the broker has served, every router that it ever connected to belongs to a
  -- tenant whose name is a slug: a router without a tenant is never reached.
  pub untenanted-serve :
      (events : List (Endpoint × Request)) (s : State)
      → any untenanted s.sent ≡ false
      → any untenanted (serve c ip is_control cfg loads events s).sent ≡ false
  unfolding serve
  untenanted-serve [] s h = h
  untenanted-serve ((e, q) ∷ rest) s h = untenanted-serve rest _ (untenanted-handle e q s h)
