-- ===== src/Agent/Masking.antt =====
-- What a notification shows of a hardware address or an IP: `is_valid_mac`, `_mask_mac`, `_mask_ip`
-- and `_mask_notify_ioc` of scripts/setup/ai_agent/agent.py. Both patterns are read character by
-- character; `then` builds lists, since `∷` builds texts.
pub mod Hides
use Prim.Native.Char.{Char, code}
use Prim.Native.String.{[], ◌∷◌}
use suburban_soc.Base.Text.{in_range, has_text, glue}
use suburban_soc.Base.{
  ℕ, zero, suc, String, Bool, true, false, ◌&&◌, ◌||◌, Option, none, some, List, [] as done,
  ◌∷◌ as ◌then◌, ◌==◌, nat_eq, string_eq, if◌then◌else◌,
}

-- `[0-9A-Fa-f]` and `[:-]`
unfoldable pub is_hex : Char → Bool
is_hex c = in_range b'0' b'9' (code c) || in_range b'A' b'F' (code c) || in_range b'a' b'f' (code c)

unfoldable pub is_separator : Char → Bool
is_separator c = code c == b':' || code c == b'-'

-- where `$` matches
unfoldable pub at_end : String → Bool
at_end [] = true
at_end (c ∷ []) = code c == 10
at_end (c ∷ d ∷ s) = false

-- `([0-9A-Fa-f]{2}[:-]){n}[0-9A-Fa-f]{2}$`
unfoldable pub matches_mac : ℕ → String → Bool
unfolding is_hex is_separator at_end
matches_mac zero [] = false
matches_mac zero (a ∷ []) = false
matches_mac zero (a ∷ b ∷ s) = is_hex a && is_hex b && at_end s
matches_mac (suc n) [] = false
matches_mac (suc n) (a ∷ []) = false
matches_mac (suc n) (a ∷ b ∷ []) = false
matches_mac (suc n) (a ∷ b ∷ c ∷ s) = is_hex a && is_hex b && is_separator c && matches_mac n s

-- `_MAC_RE`
unfoldable pub is_valid_mac : String → Bool
unfolding matches_mac
is_valid_mac value = matches_mac 5 value

-- `re.findall(r"[0-9A-Fa-f]{2}|[:\-]", mac)`
unfoldable pub find_tokens : String → List String
unfolding is_hex is_separator
find_tokens [] = done
find_tokens (a ∷ []) = if is_separator a then ((a ∷ []) then done) else done
find_tokens (a ∷ b ∷ s) =
    let after_two = find_tokens s in
    let after_one = find_tokens (b ∷ s) in
    if is_hex a && is_hex b
    then ((a ∷ b ∷ []) then after_two)
    else if is_separator a
    then ((a ∷ []) then after_one)
    else after_one

-- `tokens[n] = v`; none is the `IndexError`
unfoldable pub set_token : ℕ → String → List String → Option (List String)
set_token n v done = none
set_token zero v (t then ts) = some (v then ts)
set_token (suc n) v (t then ts) = elim (set_token n v ts) [
  | none ↦ none
  | some us ↦ some (t then us)
]

-- `"".join(tokens)`
unfoldable pub join : List String → String
join done = ""
join (t then ts) = glue t (join ts)

-- `tokens[6] = tokens[8] = tokens[10] = "xx"`
unfoldable pub blank_tokens : List String → Option (List String)
unfolding set_token
blank_tokens tokens = elim (set_token 6 "xx" tokens) [
  | none ↦ none
  | some once ↦ elim (set_token 8 "xx" once) [ none ↦ none | some twice ↦ set_token 10 "xx" twice ]
]

unfoldable pub mask_mac : String → Option String
unfolding is_valid_mac find_tokens blank_tokens join
mask_mac mac =
    if is_valid_mac mac
    then elim (blank_tokens (find_tokens mac)) [ none ↦ none | some tokens ↦ some (join tokens) ]
    else some mac

-- What `ipaddress` makes of an address: its version, its text, and the text of the network address
-- of its /64.
pub record Address : Type 0 where
  pub version : ℕ
  pub text : String
  pub network_64 : String

-- `split(".")`, `octets[-1] = "0"` and `".".join(octets)`
unfoldable pub zero_last_octet : String → String
unfolding has_text
zero_last_octet [] = "0"
zero_last_octet (c ∷ s) =
    let rest = zero_last_octet s in if has_text "." (c ∷ s) then c ∷ rest else "0"

-- none from `ip_address` is the `ValueError`
unfoldable pub mask_ip : (String → Option Address) → String → String
unfolding zero_last_octet
mask_ip ip_address ip = elim (ip_address ip) [
  | none ↦ ip
  | some addr ↦ if addr.version == 4 then zero_last_octet addr.text else addr.network_64
]

unfoldable pub mask_notify_ioc : (String → Option Address) → String → Option String
unfolding mask_mac mask_ip
mask_notify_ioc ip_address value =
    if value == ""
    then some value
    else if is_valid_mac value
    then mask_mac value
    else some (mask_ip ip_address value)

-- What `act` puts into its notifications for the target and for what it is excluded as;
-- `include_raw` is NOTIFY_INCLUDE_RAW_IOCS.
unfoldable pub notify_ip : (include_raw : Bool) → (String → Option Address) → String → String
unfolding mask_ip
notify_ip include_raw ip_address ip = if include_raw then ip else mask_ip ip_address ip

unfoldable pub notify_mac : (include_raw : Bool) → String → Option String
unfolding mask_mac
notify_mac include_raw mac = if include_raw then some mac else mask_mac mac

unfoldable pub notify_excluded :
    (include_raw : Bool) → (String → Option Address) → String → Option String
unfolding mask_notify_ioc
notify_excluded include_raw ip_address excluded =
    if include_raw then some excluded else mask_notify_ioc ip_address excluded
