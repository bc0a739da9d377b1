-- ===== src/Broker/Fleet.antt =====
-- `dispatch_block_to_all` of scripts/hive-mind-broker/dispatcher.py. `links n` is the link to the
-- router at position n of the list; what is sent is listed router by router, though the
-- routers are served concurrently.
pub mod Counts
pub mod Reach
use suburban_soc.Base.{
  ℕ, suc, String, Bool, true, false, Option, none, some, List, [], ◌∷◌, ◌++◌, if◌then◌else◌, count,
}
use suburban_soc.Broker.Inventory.{Router}
use suburban_soc.Broker.Exclusion.{Ipaddress, is_excluded_ip}
use suburban_soc.Broker.Router.{Link, Sent, Outcome, success, unknown, block_ip_on_router}

-- `return_exceptions=True`: an exception that escapes a task is an unknown outcome.
pub gathered : Option Outcome → Outcome
gathered none = unknown
gathered (some outcome) = outcome

abbrev pub is_success : Outcome → Bool
is_success success = true
is_success _ = false

abbrev pub is_unknown : Outcome → Bool
is_unknown unknown = true
is_unknown _ = false

-- (success_count, unknown_count)
pub record Tally : Type 0 where
  pub success_count : ℕ
  pub unknown_count : ℕ

module _ (ip : Ipaddress) (set : String) (attacker_ip : String) where
  unfoldable pub results : List Router → (ℕ → Link) → List Outcome
  unfolding gathered
  results [] links = []
  results (r ∷ rs) links =
      gathered (block_ip_on_router ip set r attacker_ip (links 0)).0
      ∷ results rs (λ n. links (suc n))

  unfoldable pub sent_to_all : List Router → (ℕ → Link) → List Sent
  sent_to_all [] links = []
  sent_to_all (r ∷ rs) links =
      (block_ip_on_router ip set r attacker_ip (links 0)).1 ++ sent_to_all rs (λ n. links (suc n))

  -- none is the `ValueError` of an address that does not parse
  unfoldable pub dispatch_block_to_all :
      Option (List String) → List Router → (ℕ → Link) → Option (Tally × List Sent)
  unfolding results sent_to_all
  dispatch_block_to_all file routers links = elim (is_excluded_ip ip file attacker_ip) [
    | none ↦ none
    | some excluded ↦ some (
        if excluded then (record { success_count = 0; unknown_count = 0 }, []) else (
          record {
            success_count = count is_success (results routers links);
            unknown_count = count is_unknown (results routers links);
          },
          sent_to_all routers links,
        ))
  ]
