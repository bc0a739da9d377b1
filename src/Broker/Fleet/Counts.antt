-- ===== src/Broker/Fleet/Counts.antt =====
-- The two counts of a dispatch against what happened on the routers.
use suburban_soc.Base.{
  ℕ, suc, ◌+◌, ◌≤◌, String, ◌≡◌, Bool, false, Option, some, List, [], ◌∷◌, arith, nat_eq, string_eq,
  if◌then◌else◌, count,
}
use suburban_soc.Broker.Inventory.{Router}
use suburban_soc.Broker.Exclusion.{Ipaddress, is_excluded_ip}
use suburban_soc.Broker.Router.{Link, Sent, block_ip_on_router}
use suburban_soc.Broker.Router.Sound.{IsFaithful, landed, inferred_absent}
use suburban_soc.Broker.Fleet.{
  gathered, Tally, is_success, is_unknown, results, dispatch_block_to_all,
}

-- Each link, with what its block command did.
abbrev pub Observed : Type 0
Observed = ℕ → Link × Bool

abbrev pub links_of : Observed → ℕ → Link
links_of os n = (os n).0

abbrev pub rest : Observed → Observed
rest os n = os (suc n)

module _ (ip : Ipaddress) (set : String) (attacker_ip : String) where
  -- The routers on which the element is in the set through this dispatch.
  abbrev pub blocked : List Router → Observed → ℕ
  blocked [] os = 0
  blocked (r ∷ rs) os =
      (if landed ip set r attacker_ip (os 0).0 (os 0).1 then 1 else 0) + blocked rs (rest os)

  -- The routers whose follow-up ended with the exit status that counts as an absence.
  abbrev pub inferred : List Router → Observed → ℕ
  inferred [] os = 0
  inferred (r ∷ rs) os = (if inferred_absent (os 0).0 then 1 else 0) + inferred rs (rest os)

  one_router : (r : Router) (o : Link × Bool) → IsFaithful o.0 o.1 → record {
    lower :
        count is_success (gathered (block_ip_on_router ip set r attacker_ip o.0).0 ∷ [])
        ≤ (if landed ip set r attacker_ip o.0 o.1 then 1 else 0);
    upper :
        (if landed ip set r attacker_ip o.0 o.1 then 1 else 0)
        ≤ count is_success (gathered (block_ip_on_router ip set r attacker_ip o.0).0 ∷ [])
          + count is_unknown (gathered (block_ip_on_router ip set r attacker_ip o.0).0 ∷ [])
          + (if inferred_absent o.0 then 1 else 0);
  }
  unfolding gathered block_ip_on_router
  one_router r o f = ground (arith, f.clean_took, f.exit_refused)

  bracket :
      (rs : List Router) (os : Observed)
      → ((n : ℕ) → IsFaithful (os n).0 (os n).1)
      → (count is_success (results ip set attacker_ip rs (links_of os)) ≤ blocked rs os)
        × (blocked rs os
            ≤ count is_success (results ip set attacker_ip rs (links_of os))
              + count is_unknown (results ip set attacker_ip rs (links_of os))
              + inferred rs os)
  unfolding results
  bracket [] os f = omega arith
  bracket (r ∷ rs) os f =
      omega (arith, one_router r (os 0) (f 0), bracket rs (rest os) (λ n. f (suc n)))

  -- The counts bracket the truth. Let a block command that ends cleanly have put the element into the
  -- router's set, and one that exits with an error have not. Then for an address that is not excluded
  -- at least `success_count` routers hold the element, and at most `success_count + unknown_count`,
  -- and those besides that are counted as failed only because the follow-up of a block command whose
  -- end is not known exited with status 1.
  pub tally_brackets :
      (file : Option (List String)) (routers : List Router) (os : Observed) (tally : Tally)
      (sent : List Sent)
      → ((n : ℕ) → IsFaithful (os n).0 (os n).1)
      → is_excluded_ip ip file attacker_ip ≡ some false
      → dispatch_block_to_all ip set attacker_ip file routers (links_of os) ≡ some (tally, sent)
      → (tally.success_count ≤ blocked routers os)
        × (blocked routers os ≤ tally.success_count + tally.unknown_count + inferred routers os)
  unfolding dispatch_block_to_all
  tally_brackets file routers os tally sent f open_ h = ground (arith, open_, bracket routers os f)
