-- ===== src/Agent/Retry.antt =====
-- The decorator of scripts/setup/ai_agent/retry.py. The wrapped function is what each of its calls
-- comes to, by the number of the call.
pub mod Backoff
pub mod Exhausted
use suburban_soc.Base.{
  ℕ, zero, suc, ◌-◌, ◌*◌, ◌^◌, Bool, ◌&&◌, List, [], ◌∷◌, ltb, leb, if◌then◌else◌,
}

-- A call returns, raises an `HTTPError` with the status of its response, or raises anything else.
pub data Call {ℓ} (A : Type ℓ) : Type ℓ where
  value : A → Call A
  http_error : ℕ → Call A
  other_error : Call A

-- The wrapper returns a value, re-raises the exception of a call, or, with no attempts at all,
-- returns None.
pub data Ended {ℓ} (A : Type ℓ) : Type ℓ where
  returned : A → Ended A
  reraised : Call A → Ended A
  no_value : Ended A

abbrev pub is_client_error : ℕ → Bool
is_client_error status = leb 400 status && ltb status 500

module _ {ℓ} {A : Type ℓ} (base_backoff : ℕ) (call : ℕ → Call A) where
  -- The result, the number of calls made, and the sleeps in between.
  pub record Trace : Type ℓ where
    pub ended : Ended A
    pub calls : ℕ
    pub sleeps : List ℕ

  abbrev pub slept : ℕ → Trace → Trace
  slept n t = record t { sleeps = n ∷ t.sleeps }

  -- The exception `e` of a call that is not a client error, with `left` attempts behind it.
  pub transient : Call A → (attempts left : ℕ) → Trace → Trace
  transient e attempts zero rest = record { ended = reraised e; calls = attempts; sleeps = [] }
  transient e attempts (suc left) rest = slept (base_backoff * 2 ^ (attempts - 1)) rest

  pub after_call : Call A → (attempts left : ℕ) → Trace → Trace
  unfolding transient
  after_call (value a) attempts left rest = record {
    ended = returned a;
    calls = suc attempts;
    sleeps = [];
  }
  after_call (http_error status) attempts left rest =
      if is_client_error status
      then record { ended = reraised (http_error status); calls = suc attempts; sleeps = [] }
      else transient (http_error status) (suc attempts) left rest
  after_call other_error attempts left rest = transient other_error (suc attempts) left rest

  -- `while attempts < max_attempts`, by the attempts that are left.
  pub loop : (left attempts : ℕ) → Trace
  unfolding after_call
  loop zero attempts = record { ended = no_value; calls = attempts; sleeps = [] }
  loop (suc left) attempts =
      let rest = loop left (suc attempts) in after_call (call attempts) attempts left rest

  unfoldable pub retry : (max_attempts : ℕ) → Trace
  unfolding loop
  retry max_attempts = loop max_attempts 0
