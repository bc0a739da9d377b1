-- ===== src/Agent/Excluded.antt =====
-- The exclusion list as the agent reads it: `_normalize_mac`, `_load_exclusions`, `_ip_excluded` and
-- `is_excluded` of scripts/setup/ai_agent/agent.py.
pub mod Agrees
use suburban_soc.Base.{
  ℕ, zero, suc, ◌-◌, String, ◌≡◌, refl, Bool, true, false, not, ◌&&◌, ◌||◌, Option, none, some,
  List, [], ◌∷◌, ◌==◌, nat_eq, string_eq, if◌then◌else◌, any,
}
use Prim.Native.Char.{Char, code}
use Prim.Native.String
use suburban_soc.Base.Text.{in_range, nth, strip, before_hash}
use suburban_soc.Broker.Exclusion.{Ipaddress}

-- `[0-9A-Fa-f]` and `[:\-]`
abbrev is_hex : Char → Bool
is_hex c =
    in_range b'0' b'9' (code c) || (in_range b'A' b'F' (code c) || in_range b'a' b'f' (code c))

abbrev is_separator : Char → Bool
is_separator c = (code c == b':') || (code c == b'-')

-- `([0-9A-Fa-f]{2}[:\-]){n}[0-9A-Fa-f]{2}`, the whole text
unfoldable pub hex_pairs : ℕ → String → Bool
hex_pairs zero (String.◌∷◌ a (String.◌∷◌ b String.[])) = is_hex a && is_hex b
hex_pairs (suc n) (String.◌∷◌ a (String.◌∷◌ b (String.◌∷◌ sep s))) =
    let rest = hex_pairs n s in is_hex a && (is_hex b && (is_separator sep && rest))
hex_pairs _ _ = false

unfoldable pub is_mac : String → Bool
unfolding hex_pairs
is_mac = hex_pairs 5

-- `upper` of one character, as far as it can give a hexadecimal digit.
pub upper_char : Char → Char
unfolding nth
upper_char c =
    if in_range b'a' b'z' (code c) then nth "ABCDEFGHIJKLMNOPQRSTUVWXYZ" (code c - b'a') c else c

pub without_separators : String → String
unfolding upper_char
without_separators String.[] = String.[]
without_separators (String.◌∷◌ c s) =
    let rest = without_separators s in
    if is_separator c then rest else String.◌∷◌ (upper_char c) rest

unfoldable pub normalize_mac : String → String
unfolding without_separators strip
normalize_mac value = without_separators (strip value)

-- The sets of addresses and of normalized MACs, with repetitions: the sets are only searched.
pub record Exclusions : Type 0 where
  pub ips : List String
  pub macs : List String

pub add_entry : String → Exclusions → Exclusions
unfolding is_mac normalize_mac
add_entry entry rest =
    if is_mac entry
    then record rest { macs = normalize_mac entry ∷ rest.macs }
    else record rest { ips = entry ∷ rest.ips }

pub parse_exclusions : List String → Exclusions
unfolding add_entry
parse_exclusions [] = record { ips = []; macs = [] }
parse_exclusions (line ∷ lines) =
    let rest = parse_exclusions lines in
    let entry = strip (before_hash line) in if entry == "" then rest else add_entry entry rest

-- none is `ExclusionListUnavailable`
pub load_exclusions : Option (List String) → Option Exclusions
unfolding parse_exclusions
load_exclusions none = none
load_exclusions (some lines) = some (parse_exclusions lines)

module _ (ip : Ipaddress) where
  open ip use {Address, ip_address, ip_network, is_in}

  -- An entry that is no network falls back to an exact match.
  pub entry_holds : Address → String → String → Bool
  entry_holds addr attacker_ip entry = elim (ip_network entry) [
    | none ↦ entry == attacker_ip
    | some net ↦ is_in addr net
  ]

  pub ip_excluded : String → List String → Bool
  unfolding entry_holds
  ip_excluded attacker_ip entries = elim (ip_address attacker_ip) [
    | none ↦ false
    | some addr ↦ any (entry_holds addr attacker_ip) entries
  ]

  pub excluded_by : Option Exclusions → String → String → Option String
  unfolding ip_excluded normalize_mac
  excluded_by none attacker_ip mac = some "exclusion-list-unavailable"
  excluded_by (some list) attacker_ip mac =
      if not (attacker_ip == "") && ip_excluded attacker_ip list.ips
      then some attacker_ip
      else if not (mac == "") && any (λ m. m == normalize_mac mac) list.macs
      then some mac
      else none

  -- The entry that protects the address or the MAC.
  unfoldable pub is_excluded : Option (List String) → String → String → Option String
  unfolding excluded_by load_exclusions
  is_excluded file attacker_ip mac = excluded_by (load_exclusions file) attacker_ip mac

normalizes : normalize_mac " aa:Bb-0c:dd:ee:ff" ≡ "AABB0CDDEEFF"
unfolding normalize_mac
normalizes = refl

macs : is_mac "aa:Bb-0c:dd:ee:ff" && not (is_mac "aa:bb:cc:dd:ee:f") ≡ true
unfolding is_mac
macs = refl
