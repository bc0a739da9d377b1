-- ===== src/Broker/Router/Sound.antt =====
-- What the outcome of a block says about the router.
use suburban_soc.Base.{
  ◌≤◌, String, ◌≡◌, ◌≢◌, ◌↔◌, Bool, true, false, ◌&&◌, some, [], ◌∷◌, arith, ◌==◌, nat_eq,
  string_eq, any, count,
}
use suburban_soc.Broker.Inventory.{Router}
use suburban_soc.Broker.Exclusion.{Ipaddress}
use suburban_soc.Broker.Router.{
  Connected, up, Run, clean, exited, signaled, lost, Link, add, get, Sent, opened, ran, Outcome,
  success, unknown, Task, block_ip_on_router, build_command,
}

abbrev pub is_block : Sent → Bool
is_block (opened _) = false
is_block (ran _ add _) = true
is_block (ran _ get _) = false

abbrev pub is_exit : Run → Bool
is_exit (exited _) = true
is_exit _ = false

abbrev pub is_success : Outcome → Bool
is_success success = true
is_success _ = false

abbrev pub is_connection : Sent → Bool
is_connection (opened _) = true
is_connection (ran _ _ _) = false

abbrev pub is_up : Connected → Bool
is_up up = true
is_up _ = false

-- The end of the command is not known, though it was sent.
abbrev pub is_cut : Run → Bool
is_cut signaled = true
is_cut lost = true
is_cut _ = false

abbrev pub exits_with_one : Run → Bool
exits_with_one (exited status) = status == 1
exits_with_one _ = false

-- The end of the block command is not known, and the `nft get element` that follows it up exits with
-- status 1. nft(8) does not say that this means an absent element; the code infers it, and accepts
-- that a block can then be sent again.
abbrev pub inferred_absent : Link → Bool
inferred_absent link =
    is_up link.connect && (is_cut link.run && (is_up link.reconnect && exits_with_one link.rerun))

-- What holds of a link, where `took` says whether the block command, once sent, put the element into
-- the set: a clean end means that it did, and a plain non-zero exit that it did not, since `nft`
-- applies a command as one transaction. Of `nft get element` nothing is assumed.
pub record IsFaithful (link : Link) (took : Bool) : Type 0 where
  pub clean_took : link.run ≡ clean → took ≡ true
  pub exit_refused : is_exit link.run ≡ true → took ≡ false

module _ (ip : Ipaddress) (set : String) (r : Router) (attacker_ip : String) (link : Link) where
  abbrev pub task : Task Outcome
  task = block_ip_on_router ip set r attacker_ip link

  -- The block command was sent, and put the element into the set.
  abbrev pub landed : Bool → Bool
  landed took = any is_block task.1 && took

  -- Unless `failed` was inferred from the exit status of the follow-up, `success` and `failed` are
  -- confirmed outcomes: the element is in the router's set after the first, and the dispatch has not
  -- put it there after the second.
  pub outcome_confirmed :
      (took : Bool) (outcome : Outcome)
      → IsFaithful link took
      → task.0 ≡ some outcome
      → outcome ≢ unknown
      → inferred_absent link ≡ false
      → landed took ≡ is_success outcome
  unfolding block_ip_on_router
  outcome_confirmed took outcome f h known seen = ground (arith, f.clean_took, f.exit_refused, seen)

  -- The follow-up never makes a success of an unknown outcome: `success` is returned exactly if the
  -- block command itself was built, sent and ended cleanly, and then it is all that was sent.
  pub success_iff_clean : (task.0 ≡ some success) ↔ (
      (command : String) × (task.1 ≡ opened r ∷ ran r add command ∷ [])
      × (link.connect ≡ up)
      × (link.run ≡ clean))
  unfolding block_ip_on_router
  success_iff_clean = (
    λ h. (build_command add set attacker_ip, ground arith, ground arith, ground arith),
    λ (command, sent, up_, run_). ground arith,
  )

  -- Whatever the links do, at most one block command is sent, over at most two connections.
  pub block_sends_once : (count is_block task.1 ≤ 1) × (count is_connection task.1 ≤ 2)
  unfolding block_ip_on_router
  block_sends_once = ground arith
