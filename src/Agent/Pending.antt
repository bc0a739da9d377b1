-- ===== src/Agent/Pending.antt =====
-- `list_pending` of scripts/setup/ai_agent/agent_app.py, with `_read_queue` of agent.py. The rows and
-- lines of the queue are those that its compaction reads.
pub mod Shown
use suburban_soc.Archive.{Entry, Line, entries}
use suburban_soc.Signing.{Crypto, Cache, Signed, verify}
use suburban_soc.Agent.Isolation.{is_accepted}
use suburban_soc.Base.{
  ℕ, String, Bool, true, false, not, ◌||◌, Option, none, some, List, [], ◌∷◌, ◌==◌, nat_eq,
  string_eq, if◌then◌else◌, select,
}

-- The queue's file: `unreadable` is an exception on reading it, or a line that is JSON and no object.
pub data QueueFile : Type 0 where
  missing unreadable : QueueFile
  present : List Line → QueueFile

-- none is the exception
unfoldable pub read_queue : QueueFile → Option (List Entry)
read_queue missing = some []
read_queue unreadable = none
read_queue (present lines) = some (entries lines)

-- The keys of `latest_status`, of which None is one.
abbrev pub same_key : Option String → Option String → Bool
same_key none none = true
same_key none (some j) = false
same_key (some i) none = false
same_key (some i) (some j) = i == j

-- `latest_status[action.get("id")] = action`, of a dictionary in the order of its keys
unfoldable pub set_latest : Entry → List Entry → List Entry
set_latest action [] = action ∷ []
set_latest action (a ∷ others) =
    let rest = set_latest action others in
    if same_key a.id action.id then action ∷ others else a ∷ rest

unfoldable pub latest_status : List Entry → List Entry → List Entry
unfolding set_latest
latest_status [] latest_of = latest_of
latest_status (action ∷ actions) latest_of = latest_status actions (set_latest action latest_of)

-- `a.get("status") in _RESOLVED_STATUSES`
abbrev pub is_resolved : Entry → Bool
is_resolved a = elim a.status [ none ↦ false | some s ↦ s == "approved" || s == "denied" ]

unfoldable pub pending_of : List Entry → List Entry
unfolding latest_status
pending_of actions = select (λ a. not (is_resolved a)) (latest_status actions [])

-- A response: its status, and the actions in its body.
pub record Page : Type 0 where
  pub status : ℕ
  pub pending : List Entry
  pub cache : Cache

abbrev page_of : Cache → Option (List Entry) → Page
page_of cache none = record { status = 500; pending = []; cache = cache }
page_of cache (some actions) = record { status = 200; pending = pending_of actions; cache = cache }

unfoldable pub list_pending :
    (c : Crypto) → (window : ℕ) → (approver_secret : String) → QueueFile → Signed → ℕ → Cache → Page
unfolding read_queue pending_of
list_pending c window approver_secret queue m now cache =
    let (verdict, after) = verify c window "" approver_secret m now cache in
    if is_accepted verdict
    then page_of after (read_queue queue)
    else record { status = 401; pending = []; cache = after }
