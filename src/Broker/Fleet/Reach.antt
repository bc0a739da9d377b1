-- ===== src/Broker/Fleet/Reach.antt =====
-- Which routers a dispatch reaches.
use suburban_soc.Base.{
  ℕ, suc, String, ◌≡◌, refl, ◌⊎◌, inl, inr, true, Option, some, List, [], ◌∷◌, arith, All-mono, All,
  All-append,
}
use suburban_soc.Broker.Inventory.{Router}
use suburban_soc.Broker.Exclusion.{Ipaddress, is_excluded_ip}
use suburban_soc.Broker.Router.{Link, Sent, opened, ran, block_ip_on_router}
use suburban_soc.Broker.Fleet.{Tally, sent_to_all, dispatch_block_to_all}
use suburban_soc.Broker.Inventory.{str, get_routers_for_tenant, get_routers_for_tenant_isolates}

abbrev pub router_of : Sent → Router
router_of (opened r) = r
router_of (ran r _ _) = r

module _ (ip : Ipaddress) (set : String) (attacker_ip : String) (P : Router → Type 0) where
  sent_to_one :
      (r : Router) (link : Link)
      → P r
      → All (λ s. P (router_of s)) (block_ip_on_router ip set r attacker_ip link).1
  unfolding block_ip_on_router
  sent_to_one r link h = ground (arith, h)

  sent_within :
      (rs : List Router) (links : ℕ → Link)
      → All P rs
      → All (λ s. P (router_of s)) (sent_to_all ip set attacker_ip rs links)
  unfolding sent_to_all
  sent_within [] links h = tt
  sent_within (r ∷ rs) links h =
      All-append (λ s. P (router_of s)) _ _ (sent_to_one r (links 0) h.0)
        (sent_within rs (λ n. links (suc n)) h.1)

-- A dispatch sends nothing, or what the routers are sent one by one.
module _ (ip : Ipaddress) (set attacker_ip : String) (file : Option (List String))
    (links : ℕ → Link) where
  pub sent_cases :
      (routers : List Router) (tally : Tally) (sent : List Sent)
      → dispatch_block_to_all ip set attacker_ip file routers links ≡ some (tally, sent)
      → (sent ≡ []) ⊎ (sent ≡ sent_to_all ip set attacker_ip routers links)
  unfolding dispatch_block_to_all
  sent_cases routers tally sent h = ground arith

module _ (ip : Ipaddress) (set attacker_ip : String) (file : Option (List String))
    (inventory : List Router) (links : ℕ → Link) where
  -- Tenant isolation: a dispatch to a tenant's routers opens connections to, and runs commands on,
  -- only routers of the inventory that carry that tenant.
  pub dispatch_isolates :
      (tenant : String) (tally : Tally) (sent : List Sent)
      → dispatch_block_to_all ip set attacker_ip file
          (get_routers_for_tenant inventory tenant)
          links
        ≡ some (tally, sent)
      → All (λ s. (router_of s).tenant ≡ some (str tenant)) sent
  dispatch_isolates tenant tally sent h =
      elim (sent_cases ip set attacker_ip file links (get_routers_for_tenant inventory tenant) tally
        sent h) [
          | inl nothing ↦ rw nothing tt
          | inr everything ↦ rw everything (
              sent_within ip set attacker_ip (λ r. r.tenant ≡ some (str tenant)) _ links
                (All-mono (λ r e. e.0) _ (get_routers_for_tenant_isolates inventory tenant)))
        ]

-- The permanent exclusion list: for an excluded address, and for every address while the list cannot
-- be read, nothing is sent to any router and both counts are 0.
pub dispatch_excluded :
    (ip : Ipaddress) (set attacker_ip : String) (file : Option (List String))
    (routers : List Router) (links : ℕ → Link)
    → is_excluded_ip ip file attacker_ip ≡ some true
    → dispatch_block_to_all ip set attacker_ip file routers links
      ≡ some (record { success_count = 0; unknown_count = 0 }, [])
unfolding dispatch_block_to_all
dispatch_excluded ip set attacker_ip file routers links h = rw (h, dispatch_block_to_all) refl
