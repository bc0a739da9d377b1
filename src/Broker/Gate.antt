-- ===== src/Broker/Gate.antt =====
-- `_verify`, `_verify_and_parse` and `sign_response` of scripts/hive-mind-broker/app.py, the replies
-- of its endpoints, and the values of a JSON body.
pub mod Denials
use Prim.Native.String.{◌++◌}
use suburban_soc.Base.{
  ℕ, zero, suc, ◌+◌, ◌-◌, ◌*◌, ◌^◌, ◌≤◌, ◌<◌, String, ◌≡◌, refl, sym, ap, ◌∙◌, ◌≢◌, ◌↔◌, ◌⊎◌, inl,
  inr, Bool, true, false, not, ◌&&◌, ◌||◌, Option, none, some, List, [], ◌∷◌, map, arith, ltb, leb,
  Eq, ◌==◌, nat_eq, string_eq, beq_refl, ne_of_beq, eq_of_beq, All-mono, if◌then◌else◌, Bool-cases,
  Option-cases, length, select, any, count, All, length-append, select-append, any-append,
  count-append, count-le-length, All-append, All-of,
}
use suburban_soc.Signing.{
  Crypto, Cache, Signed, Verdict, no_secret, missing_header, bad_timestamp, outside_window,
  malformed_signature, bad_signature, replayed, accepted, verify,
}

-- A value of a JSON object at a key: absent or null, a text, or anything else, by the name of its
-- Python type and its truth value.
pub data Json : Type 0 where
  null : Json
  str : String → Json
  other : String → Bool → Json

-- What an endpoint answers: a result, an `HTTPException` with its status, its detail and the
-- request_id of its headers, or an exception that nothing handles.
pub data Reply {ℓ} (A : Type ℓ) : Type ℓ where
  ok : A → Reply A
  http : ℕ → String → Option String → Reply A
  crash : Reply A

-- The reason that `write_denial` is called with. A malformed signature raises before any is written.
pub denial : Verdict → Option String
denial no_secret = some "no_secret_configured"
denial missing_header = some "missing_signature_or_timestamp"
denial bad_timestamp = some "invalid_timestamp"
denial outside_window = some "timestamp_outside_replay_window"
denial malformed_signature = none
denial bad_signature = some "invalid_signature"
denial replayed = some "replayed_signature"
denial accepted = none

pub answer : Verdict → String → Reply String
answer no_secret body = http 503 "Broker secret not configured" none
answer missing_header body = http 401 "Missing signature or timestamp header" none
answer bad_timestamp body = http 401 "Invalid timestamp" none
answer outside_window body = http 401 "Timestamp outside replay window" none
answer malformed_signature body = crash
answer bad_signature body = http 401 "Invalid signature" none
answer replayed body = http 401 "Replayed signature" none
answer accepted body = ok body

-- The nonce cache, and the reasons that `write_denial` was called with, the latest first. What
-- becomes of a call is outside: it stores a record only if a password for Elasticsearch is set and
-- Elasticsearch takes it, and swallows every failure.
pub record GateState : Type 0 where
  pub cache : Cache
  pub denials : List String

pub call_write_denial : Option String → List String → List String
call_write_denial none denials = denials
call_write_denial (some reason) denials = reason ∷ denials

module _ (c : Crypto) (window : ℕ) (secret : String) where
  unfoldable pub verify_request : Signed → ℕ → GateState → Reply String × GateState
  unfolding answer denial call_write_denial
  verify_request m now s =
      let (verdict, cache) = verify c window "" secret m now s.cache in
      (
        answer verdict m.body,
        record { cache = cache; denials = call_write_denial (denial verdict) s.denials },
      )

  -- `json.loads` is a parameter: none is a body that is no JSON
  parsed : {A : Type 0} → (String → Option A) → Reply String → Reply A
  parsed loads (ok body) = elim (loads body) [
    | none ↦ http 400 "Invalid JSON payload" none
    | some payload ↦ ok payload
  ]
  parsed loads (http status detail headers) = http status detail headers
  parsed loads crash = crash

  unfoldable pub verify_and_parse :
      {A : Type 0} → (String → Option A) → Signed → ℕ → GateState → Reply A × GateState
  unfolding parsed verify_request
  verify_and_parse loads m now s =
      let (reply, s') = verify_request m now s in (parsed loads reply, s')

  -- The two headers of a response, for its rendered bytes at second `now`; `show` is `str(int)`.
  unfoldable pub sign_response : (ℕ → String) → ℕ → String → Signed
  sign_response show now body = record {
    body = body;
    signature_header =
        some ("sha256=" ++ c.hexdigest secret ("broker-response:" ++ (show now ++ ("." ++ body))));
    timestamp_header = some (show now);
  }
