-- ===== src/Broker/Gate/Denials.antt =====
-- What the gate of the broker lets through, and which calls of `write_denial` it makes.
use suburban_soc.Base.{
  ℕ, ◌+◌, String, ◌≡◌, Bool, true, false, Option, some, arith, if◌then◌else◌, length,
}
use suburban_soc.Signing.{Crypto, Signed}
use suburban_soc.Broker.Gate.{Reply, ok, http, GateState, verify_request, verify_and_parse}

abbrev pub is_http : Reply String → Bool
is_http (http _ _ _) = true
is_http _ = false

module _ (c : Crypto) (window : ℕ) (secret : String) (m : Signed) (now : ℕ) (s : GateState) where
  abbrev pub result : Reply String × GateState
  result = verify_request c window secret m now s

  -- On every request that the gate answers with an HTTP error it calls `write_denial` exactly once; on
  -- one that it lets through, or on which it raises, it does not.
  pub denials_exact :
      length result.1.denials ≡ length s.denials + (if is_http result.0 then 1 else 0)
  unfolding verify_request
  denials_exact = ground arith

-- What the endpoints parse is the body of the message that was verified.
pub parsed-body :
    (c : Crypto) (window : ℕ) (secret : String) {A : Type 0} (loads : String → Option A)
    (m : Signed) (now : ℕ) (s : GateState) (a : A)
    → (verify_and_parse c window secret loads m now s).0 ≡ ok a
    → loads m.body ≡ some a
unfolding verify_and_parse
parsed-body c window secret loads m now s a h = ground arith

abbrev pub lets_through {ℓ} : {A : Type ℓ} → Reply A → Bool
lets_through (ok _) = true
lets_through _ = false

pub refused-parse :
    (c : Crypto) (window : ℕ) (secret : String) {A : Type 0} (loads : String → Option A)
    (m : Signed) (now : ℕ) (s : GateState)
    → lets_through (verify_request c window secret m now s).0 ≡ false
    → lets_through (verify_and_parse c window secret loads m now s).0 ≡ false
unfolding verify_and_parse
refused-parse c window secret loads m now s h = ground arith
