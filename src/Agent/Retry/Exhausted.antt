-- ===== src/Agent/Retry/Exhausted.antt =====
-- What the wrapper does when every call fails in a way that may pass.
use suburban_soc.Base.{
  ℕ, zero, suc, ◌+◌, ◌*◌, ◌^◌, ◌≤◌, ◌≡◌, refl, true, [], arith, nat_eq, string_eq,
}
use suburban_soc.Agent.Retry.{Call, reraised, Trace, after_call, loop, retry}
use suburban_soc.Agent.Retry.Backoff.{sum, is_transient, slept-sum, goes-on}

module _ {A : Type 0} (base_backoff : ℕ) (call : ℕ → Call A) where
  abbrev pub Exhausts : (from last : ℕ) → Trace base_backoff call → Type 0
  Exhausts from last t =
      (t.ended ≡ reraised (call last))
      × (t.calls ≡ suc last)
      × (sum t.sleeps + base_backoff * 2 ^ from ≡ base_backoff * 2 ^ last)

  gives-up :
      (c : Call A) (attempts : ℕ) (rest : Trace base_backoff call)
      → is_transient c ≡ true
      → after_call base_backoff call c attempts zero rest
        ≡ record { ended = reraised c; calls = suc attempts; sleeps = [] }
  unfolding after_call
  gives-up c attempts rest h = ground (arith, h)

  again :
      (left from last : ℕ) (rest : Trace base_backoff call)
      → is_transient (call from) ≡ true
      → Exhausts (suc from) last rest
      → Exhausts from last (after_call base_backoff call (call from) from (suc left) rest)
  again left from last rest h (e, k, s) =
      rw (goes-on base_backoff call (call from) from left rest h)
        (e, k, slept-sum base_backoff from last (sum rest.sleeps) s)

  at-last :
      (from last : ℕ) (rest : Trace base_backoff call)
      → is_transient (call last) ≡ true
      → from ≡ last
      → Exhausts from last (after_call base_backoff call (call from) from zero rest)
  at-last from last rest h e = rw (e, gives-up (call last) last rest h) (refl, refl, omega arith)

  loop-Exhausts :
      (left from last : ℕ)
      → last ≡ from + left
      → ((n : ℕ) → from ≤ n → n ≤ last → is_transient (call n) ≡ true)
      → Exhausts from last (loop base_backoff call (suc left) from)
  unfolding loop
  loop-Exhausts zero from last h all =
      at-last from last (loop base_backoff call zero (suc from))
        (all last (omega arith) (omega arith)) (omega arith)
  loop-Exhausts (suc left) from last h all =
      again left from last (loop base_backoff call (suc left) (suc from))
        (all from (omega arith) (omega arith))
        (loop-Exhausts left (suc from) last (omega arith) (λ n lo hi. all n (omega arith) hi))

  -- When all of `last + 1` attempts end in an exception other than a client error, the wrapper
  -- makes exactly that many calls, re-raises the exception of the last one, does not sleep after it,
  -- and its sleeps add up to `base_backoff * (2 ^ last - 1)`.
  pub retry_exhausts :
      (last : ℕ)
      → ((n : ℕ) → n ≤ last → is_transient (call n) ≡ true)
      → ((retry base_backoff call (suc last)).ended ≡ reraised (call last))
        × ((retry base_backoff call (suc last)).calls ≡ suc last)
        × (sum (retry base_backoff call (suc last)).sleeps + base_backoff ≡ base_backoff * 2 ^ last)
  unfolding retry
  retry_exhausts last all =
      let (e, k, s) = loop-Exhausts last 0 last (omega arith) (λ n lo hi. all n hi) in
      (e, k, omega (arith, s))
