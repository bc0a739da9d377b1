-- ===== src/Tests/Broker.antt =====
-- Two routers of one tenant, and one of another, under a dispatch.
use suburban_soc.Base.{
  ℕ, zero, suc, ◌+◌, ◌≤◌, String, ◌≡◌, refl, true, Option, none, some, List, [], ◌∷◌, arith, nat_eq,
  string_eq, if◌then◌else◌, length, All,
}
use suburban_soc.Base.Text.{strip, before_hash}
use suburban_soc.Broker.Exclusion.{is_excluded_ip, excluded_by_lines, is_excluded_ip_exact}
use suburban_soc.Broker.Inventory.{str, Router, get_routers_for_tenant}
use suburban_soc.Broker.Router.{
  up, refused, clean, lost, Link, Sent, add, opened, ran, block_ip_on_router,
}
use suburban_soc.Broker.Router.Sound.{IsFaithful}
use suburban_soc.Broker.Fleet.{Tally, dispatch_block_to_all}
use suburban_soc.Broker.Fleet.Counts.{Observed, links_of, blocked, inferred, tally_brackets}
use suburban_soc.Broker.Fleet.Reach.{router_of, dispatch_isolates}
use suburban_soc.Broker.Gate.{GateState}
use suburban_soc.Broker.Gate.Denials.{denials_exact, result, is_http}
use suburban_soc.Tests.Fixtures.{crypto, address, addresses, signed}

abbrev pub router : String → Router
router tenant = record {
  tenant = some (str tenant);
  ip_address = some (str "10.0.0.1");
  username = none;
  ssh_key_path = none;
}

abbrev pub inventory : List Router
inventory = router "acme" ∷ router "other" ∷ router "acme" ∷ []

abbrev pub list : Option (List String)
list = some ("192.168.1.1 # gateway\n" ∷ "# none\n" ∷ [])

-- The first link works and the second loses its answer; the command took effect on both.
abbrev pub good : Link
good = record { connect = up; run = clean; reconnect = up; rerun = clean }

abbrev pub doubtful : Link
doubtful = record { connect = up; run = lost; reconnect = refused; rerun = lost }

abbrev pub observed : Observed
observed zero = (good, true)
observed (suc n) = (doubtful, true)

good-IsFaithful : IsFaithful good true
good-IsFaithful = record { clean_took = λ h. refl; exit_refused = λ h. absurd (ground (arith, h)) }

pub observed-IsFaithful : (n : ℕ) → IsFaithful (observed n).0 (observed n).1
observed-IsFaithful zero = good-IsFaithful
observed-IsFaithful (suc n) = record {
  clean_took = λ h. absurd (ground (arith, h));
  exit_refused = λ h. absurd (ground (arith, h));
}

is_excluded_ip_exact_example :
    is_excluded_ip addresses list "192.168.1.1" ≡ excluded_by_lines addresses list "192.168.1.1"
is_excluded_ip_exact_example = is_excluded_ip_exact addresses list "192.168.1.1"

abbrev pub two : List Router
two = router "acme" ∷ router "acme" ∷ []

abbrev pub tally : Tally
tally = record { success_count = 1; unknown_count = 1 }

abbrev pub add_both : List Sent
add_both =
    opened (router "acme")
    ∷ ran (router "acme") add "nft add element inet fw4 blocked { 6.6.6.6 }"
    ∷ opened (router "acme")
    ∷ ran (router "acme") add "nft add element inet fw4 blocked { 6.6.6.6 }"
    ∷ opened (router "acme")
    ∷ []

pub dispatched :
    dispatch_block_to_all addresses "blocked" "6.6.6.6" list two (links_of observed)
    ≡ some (tally, add_both)
unfolding dispatch_block_to_all block_ip_on_router address is_excluded_ip strip before_hash
dispatched = refl

tally_brackets_example :
    (tally.success_count ≤ blocked addresses "blocked" "6.6.6.6" two observed)
    × (blocked addresses "blocked" "6.6.6.6" two observed
        ≤ tally.success_count
          + tally.unknown_count
          + inferred addresses "blocked" "6.6.6.6" two observed)
unfolding is_excluded_ip address strip before_hash
tally_brackets_example =
    tally_brackets addresses "blocked" "6.6.6.6" list two observed tally add_both
      observed-IsFaithful refl dispatched

dispatch_isolates_example : All (λ s. (router_of s).tenant ≡ some (str "acme")) add_both
unfolding get_routers_for_tenant
dispatch_isolates_example =
    dispatch_isolates addresses "blocked" "6.6.6.6" list inventory (links_of observed) "acme" tally
      add_both dispatched

abbrev gate : GateState
gate = record { cache = []; denials = [] }

denials_exact_example :
    length (result crypto 60 "k" (signed "" "0" "hello") 100 gate).1.denials
    ≡ 0 + (if is_http (result crypto 60 "k" (signed "" "0" "hello") 100 gate).0 then 1 else 0)
denials_exact_example = denials_exact crypto 60 "k" (signed "" "0" "hello") 100 gate
