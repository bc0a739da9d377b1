-- ===== src/Agent/Isolation/Roundtrip.antt =====
-- Messages between the agent and the broker: what one signs, at the gate of the other.
use suburban_soc.Base.{ℕ, String, ◌≡◌, refl, some, nat_eq, string_eq}
use suburban_soc.Signing.{ℤ, Crypto, Cache, Signed, accepted, signature, verify}
use suburban_soc.Signing.Accepts.{IsFresh, verify-signed}
use suburban_soc.Broker.Gate.{ok, GateState, verify_request, sign_response}
use suburban_soc.Agent.Isolation.{Post, signed_payload, sign_request}

-- A POST as it arrives.
abbrev pub arrived : Post → Signed
arrived p = record {
  body = p.body;
  signature_header = some p.signature;
  timestamp_header = some p.timestamp;
}

module _ (c : Crypto) (window : ℕ) (secret : String) where
  -- What the agent's own signer signs with the shared secret, the broker's own check accepts, and it
  -- reads the same body: if
  -- the broker has not seen the signature and the timestamp is within the window.
  pub request_accepted :
      (body timestamp : String) (ts : ℤ) (now : ℕ) (s : GateState)
      → IsFresh c window "" secret timestamp body ts now s.cache
      → (verify_request c window secret
          (arrived (sign_request c window secret timestamp body))
          now
          s).0
        ≡ ok body
  unfolding verify_request sign_request signed_payload signature
  request_accepted body timestamp ts now s f =
      rw (verify-signed c window "" secret timestamp body ts now s.cache f) refl

  -- What the broker signs at second `sent_at`, the agent accepts in its domain, under the same
  -- conditions.
  pub response_accepted :
      (show : ℕ → String) (sent_at : ℕ) (body : String) (ts : ℤ) (now : ℕ) (cache : Cache)
      → IsFresh c window "broker-response:" secret (show sent_at) body ts now cache
      → (verify c window "broker-response:" secret
          (sign_response c window secret show sent_at body)
          now
          cache).0
        ≡ accepted
  unfolding sign_response signature
  response_accepted show sent_at body ts now cache f =
      verify-signed c window "broker-response:" secret (show sent_at) body ts now cache f
