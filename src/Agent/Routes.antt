-- ===== src/Agent/Routes.antt =====
-- `handle_kibana_webhook` and `approve_action` of scripts/setup/ai_agent/agent_app.py, with
-- `_require_signature` of agent.py. The two routes have a secret each, and one nonce cache.
pub mod Separate
use suburban_soc.Base.{
  ℕ, zero, suc, String, Bool, true, false, not, ◌&&◌, ◌||◌, Option, none, some, List, [], ◌∷◌, ◌==◌,
  nat_eq, string_eq, if◌then◌else◌,
}
use Prim.Native.Char.{Char, code}
use suburban_soc.Base.Text.{in_range}
use suburban_soc.Signing.{Crypto, Cache, Signed, Verdict, verify}
use suburban_soc.Tenant.{safe_tenant}
use suburban_soc.Broker.Gate.{Json, null, str, other}
use suburban_soc.Broker.Exclusion.{Ipaddress}
use suburban_soc.Agent.Isolation.{Outcome, is_accepted}
use suburban_soc.Agent.Execution.{Effect, AgentResult, Store, execute_approved}
use suburban_soc.Agent.Intake.Perceive.{Alert}
use suburban_soc.Agent.Intake.{World, RunResult, run}

-- `request.get_json(silent=True) or {}`: an object, as its reader sees it, or a value that has no
-- `get`; a body that is no JSON, or a value that is false, is the object without keys.
pub data Parsed {ℓ} (A : Type ℓ) : Type ℓ where
  object : A → Parsed A
  not_object : Parsed A

-- The keys of an approval; `tenant_id` is the text `str(value or "")`.
pub record Approval : Type 0 where
  pub id : Json
  pub tenant_id : String

-- A response's status, or none for an exception that nothing handles; what was done; the cache.
pub record Answered : Type 0 where
  pub status : Option ℕ
  pub effects : List Effect
  pub cache : Cache

-- `[0-9a-f]`
abbrev is_digest_char : Char → Bool
is_digest_char c = in_range b'0' b'9' (code c) || in_range b'a' b'f' (code c)

pub hex_digits : ℕ → String → Bool
hex_digits zero String.[] = true
hex_digits (suc n) (String.◌∷◌ c s) = let rest = hex_digits n s in is_digest_char c && rest
hex_digits _ _ = false

-- `_ALERT_ID_RE.fullmatch`
pub is_alert_id : String → Bool
unfolding hex_digits
is_alert_id = hex_digits 64

abbrev unauthorized : Cache → Answered
unauthorized cache = record { status = some 401; effects = []; cache = cache }

abbrev rejected : Cache → Answered
rejected cache = record { status = some 400; effects = []; cache = cache }

abbrev crashed : Cache → Answered
crashed cache = record { status = none; effects = []; cache = cache }

module _ (c : Crypto) (ip : Ipaddress) (window : ℕ) (alert_secret approver_secret : String) where
  of_result : Cache → AgentResult × List Effect → Answered
  of_result cache (result, effects) = record {
    status = some result.status_code;
    effects = effects;
    cache = cache;
  }

  of_id : Store → Option (List String) → Outcome → Cache → (tenant : String) → Json → Answered
  unfolding of_result is_alert_id
  of_id store exclusions broker cache tenant null = rejected cache
  of_id store exclusions broker cache tenant (other name truth) =
      if truth then crashed cache else rejected cache
  of_id store exclusions broker cache tenant (str id) =
      if (id == "") || not (is_alert_id id)
      then rejected cache
      else of_result cache (execute_approved ip store tenant exclusions broker)

  pub of_approval : Store → Option (List String) → Outcome → Parsed Approval → Cache → Answered
  unfolding of_id
  of_approval store exclusions broker not_object cache = crashed cache
  of_approval store exclusions broker (object a) cache =
      of_id store exclusions broker cache (safe_tenant a.tenant_id) a.id

  pub if_accepted : Verdict × Cache → (Cache → Answered) → Answered
  if_accepted (verdict, cache) go = if is_accepted verdict then go cache else unauthorized cache

  -- `loads` is `get_json`; `broker` is what the broker comes to, if it is called.
  pub approve_action :
      (String → Parsed Approval)
      → Store
      → Option (List String)
      → Outcome
      → Signed
      → ℕ
      → Cache
      → Answered
  unfolding of_approval if_accepted
  approve_action loads store exclusions broker m now cache =
      if_accepted (verify c window "" approver_secret m now cache)
        (of_approval store exclusions broker (loads m.body))

  of_run : Cache → Option RunResult × List Effect → Answered
  of_run cache (none, effects) = record { status = none; effects = effects; cache = cache }
  of_run cache (some r, effects) = record {
    status = some r.status_code;
    effects = effects;
    cache = cache;
  }

  of_alert :
      (autonomous_isolation : Bool) (sha256 : String → String) (is_digit : ℕ → Bool)
      (bucket : String)
      → World
      → Parsed Alert
      → Cache
      → Answered
  unfolding of_run
  of_alert autonomous_isolation sha256 is_digit bucket w not_object cache =
      of_run cache (run ip autonomous_isolation sha256 is_digit w bucket none)
  of_alert autonomous_isolation sha256 is_digit bucket w (object a) cache =
      of_run cache (run ip autonomous_isolation sha256 is_digit w bucket (some a))

  pub handle_kibana_webhook :
      (autonomous_isolation : Bool) (sha256 : String → String) (is_digit : ℕ → Bool)
      (bucket : String)
      → (String → Parsed Alert)
      → World
      → Signed
      → ℕ
      → Cache
      → Answered
  unfolding of_alert if_accepted
  handle_kibana_webhook autonomous_isolation sha256 is_digit bucket loads w m now cache =
      if_accepted (verify c window "" alert_secret m now cache)
        (of_alert autonomous_isolation sha256 is_digit bucket w (loads m.body))
