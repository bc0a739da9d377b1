-- ===== src/Broker/Queue.antt =====
-- The approval queue of scripts/hive-mind-broker/app.py: its rows, who is pending, and the labels
-- that a caller may put on a row. The file is the list of its rows.
pub mod Labels
use Prim.Native.Char.{code}
use Prim.Native.String.{◌++◌ as ◌<>◌}
use suburban_soc.Base.{
  ℕ, zero, suc, String, Bool, not, ◌&&◌, ◌||◌, Option, none, some, List, [], ◌∷◌, ◌==◌, nat_eq,
  string_eq, if◌then◌else◌, select, any,
}
use suburban_soc.Broker.Gate.{Json, null, str, other}

-- The `result` of a row.
pub data Result : Type 0 where
  invalid_ip exclusion_list : Result
  no_routers : String → Result
  counts : (success total unknown : ℕ) → Result

pub record Row : Type 0 where
  pub id : String
  pub ts : ℕ
  pub status : String
  pub tenant : Option String
  pub attacker_ip : Option String
  pub router_count : Option ℕ
  pub approver : Option String
  pub result : Option Result
  pub request_id : Option String
  pub upstream_approver_claimed : Option String

abbrev pub is_resolved : Row → Bool
is_resolved a = a.status == "approved" || a.status == "denied"

-- `a["id"] in resolved`
unfoldable pub resolved : String → List Row → Bool
resolved id = any (λ a. is_resolved a && a.id == id)

unfoldable pub pending_rows : List Row → List Row
unfolding resolved
pending_rows queue = select (λ a. a.status == "pending" && not (resolved a.id queue)) queue

-- A dictionary keeps the last row of an id.
unfoldable pub last_with_id : String → List Row → Option Row
last_with_id id [] = none
last_with_id id (a ∷ rest) = elim (last_with_id id rest) [
  | some b ↦ some b
  | none ↦ if a.id == id then some a else none
]

-- `"".join(c for c in raw if unicodedata.category(c) not in ("Cc", "Cf"))`, and `[:limit]`
unfoldable pub cleaned : (ℕ → Bool) → String → String
cleaned is_control String.[] = String.[]
cleaned is_control (String.◌∷◌ c s) =
    let rest = cleaned is_control s in if is_control (code c) then rest else String.◌∷◌ c rest

unfoldable pub truncated : ℕ → String → String
truncated zero s = String.[]
truncated (suc n) String.[] = String.[]
truncated (suc n) (String.◌∷◌ c s) = String.◌∷◌ c (truncated n s)

abbrev pub claimed_approver_max : ℕ
claimed_approver_max = 64

abbrev pub request_id_max : ℕ
request_id_max = 64

unfoldable pub claimed_approver : (ℕ → Bool) → Json → Option String
unfolding cleaned truncated
claimed_approver is_control null = none
claimed_approver is_control (other type_name _) = some ("<non-string:" <> (type_name <> ">"))
claimed_approver is_control (str raw) =
    some (truncated claimed_approver_max (cleaned is_control raw))

unfoldable pub safe_request_id : (ℕ → Bool) → Json → Option String
unfolding cleaned truncated
safe_request_id is_control (str raw) = some (truncated request_id_max (cleaned is_control raw))
safe_request_id is_control _ = none

abbrev pub with_claim : Row → Option String → Row
with_claim row none = row
with_claim row (some claimed) = record row { upstream_approver_claimed = some claimed }
