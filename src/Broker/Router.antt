-- ===== src/Broker/Router.antt =====
-- One router: `build_nft_command`, `_verify_block_applied`, `_reconcile_unknown` and
-- `block_ip_on_router` of scripts/hive-mind-broker/dispatcher.py. `asyncssh` and the router are not
-- code of the repository: `Link` says what each connection and each command came to.
pub mod Sound
use Prim.Native.String.{◌++◌ as ◌<>◌}
use suburban_soc.Base.{
  ℕ, String, Bool, true, false, Option, none, some, List, [], ◌∷◌, ◌==◌, nat_eq, string_eq,
  if◌then◌else◌,
}
use suburban_soc.Broker.Inventory.{str, other, Router}
use suburban_soc.Broker.Exclusion.{Ipaddress}

-- How `asyncssh.connect` ended. A `BaseException`, such as a cancellation, passes through every
-- `except Exception` of this file.
pub data Connected : Type 0 where
  up refused cancelled : Connected

-- How `asyncio.wait_for(conn.run(command, check=True))` ended: cleanly, by a `ProcessError` with an
-- exit status or with an exit signal, or by any other exception, such as a timeout.
pub data Run : Type 0 where
  clean : Run
  exited : ℕ → Run
  signaled lost interrupted : Run

-- What one dispatch meets at a router: the block's connection and command, and those of the
-- follow-up that may come after.
pub record Link : Type 0 where
  pub connect : Connected
  pub run : Run
  pub reconnect : Connected
  pub rerun : Run

-- The `nft` commands that are sent: `add element` and `get element`.
pub data Verb : Type 0 where
  add get : Verb

abbrev pub verb_text : Verb → String
verb_text add = "add"
verb_text get = "get"

-- What has been sent to a router, in order.
pub data Sent : Type 0 where
  opened : Router → Sent
  ran : Router → Verb → String → Sent

pub data Outcome : Type 0 where
  success failed unknown : Outcome

-- A coroutine that may end in a `BaseException` (none), and what it has sent.
abbrev pub Task : Type 0 → Type 0
Task A = Option A × List Sent

pub build_command : Verb → String → String → String
build_command verb set attacker_ip =
    "nft "
    <> (verb_text verb <> (" element inet fw4 " <> (set <> (" { " <> (attacker_ip <> " }")))))

-- `os.path.expanduser(router.get("ssh_key_path", default))` raises on what is no text.
key_path_ok : Router → Bool
key_path_ok r = elim r.ssh_key_path [
  | none ↦ true
  | some v ↦ elim v [ str _ ↦ true | other ↦ false ]
]

module _ (ip : Ipaddress) (set : String) where
  open ip use {ip_address}

  -- none is the `ValueError` of `validate_ip`
  unfoldable pub build_nft_command : String → Option String
  unfolding build_command
  build_nft_command attacker_ip = elim (ip_address attacker_ip) [
    | none ↦ none
    | some _ ↦ some (build_command add set attacker_ip)
  ]

  unfoldable pub build_nft_verify_command : String → Option String
  unfolding build_command
  build_nft_verify_command attacker_ip = elim (ip_address attacker_ip) [
    | none ↦ none
    | some _ ↦ some (build_command get set attacker_ip)
  ]

  -- The first `try` of both functions: none if the entry is malformed.
  prepare : Router → Option String → Option String
  unfolding key_path_ok
  prepare r command = if key_path_ok r then command else none

  -- `True`, `False` or `None`, by how the read-only command ended
  pub read_verdict : Run → Option (Option Bool)
  read_verdict clean = some (some true)
  read_verdict (exited status) = some (if status == 1 then some false else none)
  read_verdict signaled = some none
  read_verdict lost = some none
  read_verdict interrupted = none

  verify_connected : Router → String → Connected → Run → Task (Option Bool)
  unfolding read_verdict
  verify_connected r command up run = (read_verdict run, opened r ∷ ran r get command ∷ [])
  verify_connected r command refused run = (some none, opened r ∷ [])
  verify_connected r command cancelled run = (none, opened r ∷ [])

  verify_prepared : Router → Option String → Link → Task (Option Bool)
  unfolding verify_connected
  verify_prepared r none link = (some none, [])
  verify_prepared r (some command) link = verify_connected r command link.reconnect link.rerun

  unfoldable pub verify_block_applied : Router → String → Link → Task (Option Bool)
  unfolding verify_prepared prepare build_nft_verify_command
  verify_block_applied r attacker_ip link =
      verify_prepared r (prepare r (build_nft_verify_command attacker_ip)) link

  -- A confirmed absence becomes `failed`; a confirmed presence stays `unknown`.
  pub reconcile : Option Bool → Outcome
  reconcile (some false) = failed
  reconcile (some true) = unknown
  reconcile none = unknown

  unfoldable pub reconcile_unknown : Router → String → Link → Task Outcome
  unfolding reconcile verify_block_applied
  reconcile_unknown r attacker_ip link =
      let (verified, sent) = verify_block_applied r attacker_ip link in
      (elim verified [ none ↦ none | some v ↦ some (reconcile v) ], sent)

  after_run : Router → String → Link → Run → Task Outcome
  unfolding reconcile_unknown
  after_run r attacker_ip link clean = (some success, [])
  after_run r attacker_ip link (exited status) = (some failed, [])
  after_run r attacker_ip link signaled = reconcile_unknown r attacker_ip link
  after_run r attacker_ip link lost = reconcile_unknown r attacker_ip link
  after_run r attacker_ip link interrupted = (none, [])

  block_connected : Router → String → String → Link → Connected → Task Outcome
  unfolding after_run
  block_connected r attacker_ip command link up =
      let (outcome, sent) = after_run r attacker_ip link link.run in
      (outcome, opened r ∷ ran r add command ∷ sent)
  block_connected r attacker_ip command link refused = (some failed, opened r ∷ [])
  block_connected r attacker_ip command link cancelled = (none, opened r ∷ [])

  block_prepared : Router → String → Option String → Link → Task Outcome
  unfolding block_connected
  block_prepared r attacker_ip none link = (some failed, [])
  block_prepared r attacker_ip (some command) link =
      block_connected r attacker_ip command link link.connect

  unfoldable pub block_ip_on_router : Router → String → Link → Task Outcome
  unfolding block_prepared prepare build_nft_command
  block_ip_on_router r attacker_ip link =
      block_prepared r attacker_ip (prepare r (build_nft_command attacker_ip)) link
