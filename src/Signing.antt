-- ===== src/Signing.antt =====
-- Request signing, replay windows and the nonce cache: `_verify` of
-- scripts/hive-mind-broker/app.py, and `verify_signature` and `_nonce_is_fresh` of
-- scripts/setup/ai_agent/agent.py. The clock, the body and the headers of a request are arguments.
-- Bytes and header texts are both `String`, one code point to a byte, so `encode` is the identity.
pub mod Replay
pub mod Accepts
use Prim.Native.Char.{code}
use Prim.Native.String.{◌++◌}
use suburban_soc.Base.{
  ℕ, suc, ◌+◌, ◌-◌, String, Bool, not, ◌&&◌, true, false, Option, none, some, List, [], ◌∷◌, ltb,
  ◌==◌, if◌then◌else◌, select, any, string_eq,
}

-- `int(text)`: the sign and the digits, `negsuc n` is -(n + 1).
pub data ℤ : Type 0 where
  pos : ℕ → ℤ
  negsuc : ℕ → ℤ

-- `abs(now - ts)`
abbrev pub distance : ℕ → ℤ → ℕ
distance now (pos t) = (now - t) + (t - now)
distance now (negsuc n) = now + suc n

-- What the two programs take from Python's standard library: `hmac.new(key, message, sha256)`, as
-- the text of its hexadecimal digest, and `int`, which raises on a text that is no number.
pub record Crypto : Type 0 where
  pub hexdigest : String → String → String
  pub parse_int : String → Option ℤ

-- `_seen_sigs`: a signature and the second at which it is forgotten.
abbrev pub Cache : Type 0
Cache = List (String × ℕ)

abbrev pub purge : ℕ → Cache → Cache
purge now = select (λ entry. ltb now entry.1)

abbrev pub seen : String → Cache → Bool
seen sig = any (λ entry. entry.0 == sig)

-- The cache after the check, and whether the signature was fresh.
pub nonce_is_fresh : ℕ → String → ℕ → Cache → Bool × Cache
nonce_is_fresh window sig now cache =
    let live = purge now cache in
    if seen sig live then (false, live) else (true, (sig, now + window) ∷ live)

-- The header that a check expects. Only the agent's check of a broker response has a domain; the
-- two signers have definitions of their own, Agent.Isolation.sign_request and
-- Broker.Gate.sign_response.
unfoldable pub signature : Crypto → String → String → String → String → String
signature c secret domain timestamp body =
    "sha256=" ++ c.hexdigest secret (domain ++ (timestamp ++ ("." ++ body)))

-- A message with its two headers, as it arrives.
pub record Signed : Type 0 where
  pub body : String
  pub signature_header : Option String
  pub timestamp_header : Option String

-- The outcome of a check, in the order in which the checks are made.
pub data Verdict : Type 0 where
  no_secret missing_header bad_timestamp outside_window malformed_signature : Verdict
  bad_signature replayed accepted : Verdict

-- `hmac.compare_digest` raises `TypeError` on a text with a character outside ASCII.
unfoldable pub is_ascii : String → Bool
is_ascii String.[] = true
is_ascii (String.◌∷◌ c s) = ltb (code c) 128 && is_ascii s

-- A header that is absent or empty counts as missing.
present : Option String → Option String
present none = none
present (some s) = if s == "" then none else some s

module _ (c : Crypto) (window : ℕ) (domain secret : String) where
  check_nonce : String → ℕ → Cache → Verdict × Cache
  unfolding nonce_is_fresh
  check_nonce sig now cache =
      let (fresh, cache') = nonce_is_fresh window sig now cache in
      (if fresh then accepted else replayed, cache')

  check_signature : String → String → String → ℤ → ℕ → Cache → Verdict × Cache
  unfolding check_nonce is_ascii
  check_signature body sig timestamp ts now cache =
      if ltb window (distance now ts)
      then (outside_window, cache)
      else if not (is_ascii sig)
      then (malformed_signature, cache)
      else if signature c secret domain timestamp body == sig
      then check_nonce sig now cache
      else (bad_signature, cache)

  check_timestamp : String → String → String → Option ℤ → ℕ → Cache → Verdict × Cache
  unfolding check_signature
  check_timestamp body sig timestamp none now cache = (bad_timestamp, cache)
  check_timestamp body sig timestamp (some ts) now cache =
      check_signature body sig timestamp ts now cache

  check_headers : String → Option String → Option String → ℕ → Cache → Verdict × Cache
  unfolding check_timestamp
  check_headers body (some sig) (some timestamp) now cache =
      check_timestamp body sig timestamp (c.parse_int timestamp) now cache
  check_headers body _ _ now cache = (missing_header, cache)

  -- The gate of both programs, with the cache after it.
  unfoldable pub verify : Signed → ℕ → Cache → Verdict × Cache
  unfolding check_headers present
  verify m now cache =
      if secret == ""
      then (no_secret, cache)
      else check_headers m.body (present m.signature_header) (present m.timestamp_header) now cache
