-- ===== src/Agent/Isolation.antt =====
-- The agent's half of a block: `sign_request` and `dispatch_block_via_broker`
-- of scripts/setup/ai_agent/agent.py. The new request_id, the clock and what the POST comes to are
-- arguments.
pub mod Outcomes
pub mod Truth
pub mod Trusted
pub mod Roundtrip
use Prim.Native.String.{◌++◌}
use suburban_soc.Base.{
  ℕ, zero, suc, ◌+◌, ◌-◌, ◌*◌, ◌^◌, ◌≤◌, ◌<◌, String, ◌≡◌, refl, sym, ap, ◌∙◌, ◌≢◌, ◌↔◌, ◌⊎◌, inl,
  inr, Bool, true, false, not, ◌&&◌, ◌||◌, Option, none, some, List, [], ◌∷◌, map, arith, ltb, leb,
  Eq, ◌==◌, nat_eq, string_eq, beq_refl, ne_of_beq, eq_of_beq, All-mono, if◌then◌else◌, Bool-cases,
  Option-cases, length, select, any, count, All, length-append, select-append, any-append,
  count-append, count-le-length, All-append, All-of,
}
use suburban_soc.Signing.{ℤ, pos, negsuc, Crypto, Cache, Signed, Verdict, accepted, verify}
use suburban_soc.Broker.Gate.{Json, null, str, other}

-- The keys of the body that the function reads, once `resp.json()` gave a dictionary; a count is
-- what `int(data.get(key, 0))` gives, none where that raises.
pub record Data : Type 0 where
  pub is_empty : Bool
  pub request_id : Json
  pub executed : Bool
  pub success_count : Option ℤ
  pub unknown_count : Option ℤ

pub record Response : Type 0 where
  pub status_code : ℕ
  pub content : Signed
  pub request_id_header : Option String

-- Why an outcome is unknown.
pub data Doubt : Type 0 where
  no_response server_error bad_signature unparseable other_request bad_counts unconfirmed : Doubt

-- `(ok, detail)` without the detail, or `IsolationOutcomeUnknown`.
pub data Outcome : Type 0 where
  known : Bool → Outcome
  outcome_unknown : Doubt → Outcome

-- What is POSTed to the broker.
pub record Post : Type 0 where
  pub body : String
  pub timestamp : String
  pub signature : String

pub data Event : Type 0 where
  posted : Post → Event
  audited : String → Event
  notified : String → Event

-- `data = {}` where the body is no JSON object
abbrev pub no_data : Data
no_data = record {
  is_empty = true;
  request_id = null;
  executed = false;
  success_count = some (pos 0);
  unknown_count = some (pos 0);
}

abbrev pub is_zero : ℤ → Bool
is_zero (pos n) = n == 0
is_zero (negsuc _) = false

abbrev pub is_positive : ℤ → Bool
is_positive (pos n) = ltb 0 n
is_positive (negsuc _) = false

pub echoes_header : String → Option String → Bool
echoes_header request_id none = false
echoes_header request_id (some h) = h == request_id

-- `data.get("request_id") or resp.headers.get(…)`, compared with the request_id that was sent; a
-- value that is no text equals no text.
pub echoes : String → Json → Option String → Bool
unfolding echoes_header
echoes request_id null header = echoes_header request_id header
echoes request_id (str s) header =
    if s == "" then echoes_header request_id header else s == request_id
echoes request_id (other name truth) header =
    if truth then false else echoes_header request_id header

-- The last tests, on a response that is the broker's and belongs to this request.
pub counted : Bool → Option ℤ → Option ℤ → Outcome
counted executed (some successes) (some unknowns) =
    if executed && (is_zero successes && is_positive unknowns)
    then outcome_unknown unconfirmed
    else known (executed && is_positive successes)
counted executed _ _ = outcome_unknown bad_counts

pub confirmed : (request_id : String) → Response → Data → Outcome × List Event
unfolding echoes counted
confirmed request_id r body =
    if (r.status_code == 200) && body.is_empty
    then (outcome_unknown unparseable, [])
    else if not (echoes request_id body.request_id r.request_id_header)
    then (
      outcome_unknown other_request,
      audited "broker_response_request_id_mismatch"
          ∷ notified "Broker response request_id mismatch"
          ∷ [],
    )
    else if not (r.status_code == 200)
    then (known false, [])
    else (counted body.executed body.success_count body.unknown_count, [])

abbrev pub data_or_none : Option Data → Data
data_or_none none = no_data
data_or_none (some body) = body

abbrev pub is_accepted : Verdict → Bool
is_accepted accepted = true
is_accepted _ = false

abbrev pub with_cache : Cache → Outcome × List Event → Outcome × (Cache × List Event)
with_cache cache (outcome, events) = (outcome, (cache, events))

-- `_signed_payload`
pub signed_payload : (domain timestamp body : String) → String
signed_payload domain timestamp body = domain ++ (timestamp ++ ("." ++ body))

module _ (c : Crypto) (window : ℕ) (secret : String) where
  pub sign_request : String → String → Post
  unfolding signed_payload
  sign_request timestamp body = record {
    body = body;
    timestamp = timestamp;
    signature = "sha256=" ++ c.hexdigest secret (signed_payload "" timestamp body);
  }

  module _ (loads : String → Option Data) where
    -- An outcome, the nonce cache, and the events after the POST.
    verified : (request_id : String) → Response → Verdict × Cache → Outcome × (Cache × List Event)
    unfolding confirmed
    verified request_id r (verdict, cache) =
        if is_accepted verdict
        then with_cache cache (confirmed request_id r (data_or_none (loads r.content.body)))
        else (
          outcome_unknown bad_signature,
          (
            cache,
            audited "broker_response_signature_invalid"
                ∷ notified "Broker response signature invalid"
                ∷ [],
          ),
        )

    pub received :
        (request_id : String) → Option Response → ℕ → Cache → Outcome × (Cache × List Event)
    unfolding verified
    received request_id none now cache = (outcome_unknown no_response, (cache, []))
    received request_id (some r) now cache =
        if (r.status_code == 500) || (r.status_code == 504)
        then (outcome_unknown server_error, (cache, []))
        else verified request_id r (verify c window "broker-response:" secret r.content now cache)

    -- The POST comes before what is done with its response.
    pub after_post : Post → Outcome × (Cache × List Event) → Outcome × (Cache × List Event)
    after_post p (outcome, (cache, events)) = (outcome, (cache, posted p ∷ events))

    -- `dumps` is `json.dumps` of the five fields, the approver among them, `timestamp` the text of
    -- the second at which the request is signed, `now` the one at which the response is checked.
    unfoldable pub dispatch_block_via_broker :
        (dumps : String → String → String → String → String)
        → (attacker_ip tenant source_mac : String) → (request_id timestamp : String)
        → Option Response
        → ℕ
        → Cache
        → Outcome × (Cache × List Event)
    unfolding received sign_request after_post
    dispatch_block_via_broker dumps attacker_ip tenant source_mac request_id timestamp reply now
          cache =
        if secret == ""
        then (known false, (cache, []))
        else after_post (sign_request timestamp (dumps attacker_ip tenant source_mac request_id))
            (received request_id reply now cache)
