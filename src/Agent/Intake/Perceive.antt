-- ===== src/Agent/Intake/Perceive.antt =====
-- `Agent.perceive` of scripts/setup/ai_agent/agent.py with its checks, and `generate_dedup_key` of
-- checkpoints.py.
use suburban_soc.Base.{
  ℕ, zero, suc, String, Bool, true, false, not, ◌&&◌, Option, none, some, ◌==◌, nat_eq, string_eq,
  if◌then◌else◌,
}
use Prim.Native.Char.{code}
use Prim.Native.String.{◌++◌ as ◌<>◌}
use suburban_soc.Base.Text.{strip}
use suburban_soc.Tenant.{safe_tenant}
use suburban_soc.Broker.Exclusion.{Ipaddress}
use suburban_soc.Agent.Excluded.{is_mac, normalize_mac}
use suburban_soc.Agent.Execution.{AlertContext}

-- The value of the key `severity`, which is taken as it is: a text, or another JSON value by the text
-- that an f-string makes of it.
pub data Severity : Type 0 where
  str_value other_value : String → Severity

abbrev pub severity_text : Severity → String
severity_text (str_value s) = s
severity_text (other_value s) = s

-- `severity == t`
abbrev pub says : Severity → String → Bool
says (str_value s) t = s == t
says (other_value s) t = false

-- The keys of an alert: a severity that is missing is none, and the others are the texts that `str`
-- gives.
pub record Alert : Type 0 where
  pub tenant_id : String
  pub source_ip : String
  pub source_mac : String
  pub severity : Option Severity
  pub technique : String

-- The other fields of an `AlertContext`.
pub record Perceived : Type 0 where
  pub target : AlertContext
  pub severity : Severity
  pub alert_id : String
  pub technique : String

-- `\d{n}`, and what follows it
pub digits : (ℕ → Bool) → ℕ → String → Option String
digits is_digit zero s = some s
digits is_digit (suc n) String.[] = none
digits is_digit (suc n) (String.◌∷◌ c s) =
    let rest = digits is_digit n s in if is_digit (code c) then rest else none

after_dot : (ℕ → Bool) → String → Bool
unfolding digits
after_dot is_digit String.[] = true
after_dot is_digit (String.◌∷◌ c s) =
    (code c == b'.') && (elim (digits is_digit 3 s) [ none ↦ false | some rest ↦ rest == "" ])

-- `_TECHNIQUE_RE`, `^T\d{4}(\.\d{3})?$`
pub matches_technique_re : (ℕ → Bool) → String → Bool
unfolding after_dot
matches_technique_re is_digit String.[] = false
matches_technique_re is_digit (String.◌∷◌ c s) =
    (code c == b'T')
    && (elim (digits is_digit 4 s) [ none ↦ false | some rest ↦ after_dot is_digit rest ])

-- `sha256` is the hexadecimal digest, and `bucket` the text of `int(time.time()) // 300`.
pub generate_dedup_key :
    (String → String) → (bucket tenant_id target_ip target_mac severity : String) → String
generate_dedup_key sha256 bucket tenant_id target_ip target_mac severity = sha256 (
    tenant_id
    <> ("|" <> (target_ip <> ("|" <> (target_mac <> ("|" <> (severity <> ("|" <> bucket))))))))

abbrev pub default : Option Severity → Severity → Severity
default none d = d
default (some s) d = s

-- The host of the suppression window
unfoldable pub host_of : AlertContext → String
unfolding normalize_mac
host_of target =
    let mac = normalize_mac target.target_mac in
    if not (mac == "") then mac else if target.target_ip == "unknown" then "" else target.target_ip

module _ (ip : Ipaddress) where
  open ip use {ip_address, is_private}

  pub is_valid_ip : String → Bool
  is_valid_ip value = elim (ip_address value) [ none ↦ false | some _ ↦ true ]

  -- What is no address counts as private.
  unfoldable pub is_private_ip : String → Bool
  is_private_ip value = elim (ip_address value) [ none ↦ true | some addr ↦ is_private addr ]

module _ (ip : Ipaddress) (sha256 : String → String) (is_digit : ℕ → Bool) where
  abbrev target_of : Alert → AlertContext
  target_of a =
      let source_ip = strip a.source_ip in
      let source_mac = strip a.source_mac in
      record {
        tenant_id = safe_tenant a.tenant_id;
        target_ip = if is_valid_ip ip source_ip then source_ip else "unknown";
        target_mac = if is_mac source_mac then source_mac else "";
      }

  -- none is a payload that is no JSON object
  pub perceive : (bucket : String) → Option Alert → Option Perceived
  unfolding is_valid_ip generate_dedup_key matches_technique_re
  perceive bucket none = none
  perceive bucket (some a) =
      let target = target_of a in
      let severity = default a.severity (str_value "medium") in
      let technique = strip a.technique in
      some (record {
        target = target;
        severity = severity;
        alert_id =
            generate_dedup_key sha256 bucket target.tenant_id target.target_ip target.target_mac
              (severity_text severity);
        technique = if matches_technique_re is_digit technique then technique else "";
      })
