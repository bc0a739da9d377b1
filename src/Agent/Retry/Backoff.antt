-- ===== src/Agent/Retry/Backoff.antt =====
-- How often the wrapper calls, when it gives up, and how long it sleeps.
use suburban_soc.Base.{
  ℕ, zero, suc, ◌+◌, ◌*◌, ◌^◌, ◌≤◌, ◌<◌, ◌≡◌, refl, ap, ◌≢◌, Bool, true, false, not, List, [], ◌∷◌,
  arith,
}
use native.Mathlib.Decide.{ℕ_discrete}
use native.Mathlib.Nat.{two-pow-succ}
use suburban_soc.Agent.Retry.{
  slept, Call, value, http_error, other_error, Ended, returned, reraised, is_client_error, Trace,
  after_call, loop, retry,
}

abbrev pub sum : List ℕ → ℕ
sum [] = 0
sum (n ∷ ns) = n + sum ns

abbrev pub is_transient {ℓ} : {A : Type ℓ} → Call A → Bool
is_transient (value _) = false
is_transient (http_error status) = not (is_client_error status)
is_transient other_error = true

-- How a call that is not transient ends the loop.
abbrev pub outcome {ℓ} : {A : Type ℓ} → Call A → Ended A
outcome (value a) = returned a
outcome e = reraised e

pub slept-sum :
    (base from stop total : ℕ)
    → total + base * 2 ^ suc from ≡ base * 2 ^ stop
    → base * 2 ^ from + total + base * 2 ^ from ≡ base * 2 ^ stop
slept-sum base from stop total h =
    let double = two-pow-succ from in
    let scaled = ap (λ p. base * p) double in omega (arith, scaled, h)

module _ {A : Type 0} (base_backoff : ℕ) (call : ℕ → Call A) where
  abbrev Stops : (from stop : ℕ) → Trace base_backoff call → Type 0
  Stops from stop t =
      (t.ended ≡ outcome (call stop))
      × (t.calls ≡ suc stop)
      × (sum t.sleeps + base_backoff * 2 ^ from ≡ base_backoff * 2 ^ stop)

  -- A call that ends the loop, whatever is left.
  ends-here :
      (c : Call A) (attempts left : ℕ) (rest : Trace base_backoff call)
      → is_transient c ≡ false
      → call attempts ≡ c
      → Stops attempts attempts (after_call base_backoff call c attempts left rest)
  unfolding after_call
  ends-here c attempts left rest h e = ground (arith, h, e)

  -- A transient call with attempts left sleeps, and the loop goes on.
  pub goes-on :
      (c : Call A) (attempts left : ℕ) (rest : Trace base_backoff call)
      → is_transient c ≡ true
      → after_call base_backoff call c attempts (suc left) rest
        ≡ slept base_backoff call (base_backoff * 2 ^ attempts) rest
  unfolding after_call
  goes-on c attempts left rest h = ground (arith, h)

  at-stop :
      (left from stop : ℕ)
      → is_transient (call stop) ≡ false
      → from ≡ stop
      → Stops from stop (
          after_call base_backoff call
            (call from)
            from
            left
            (loop base_backoff call left (suc from)))
  at-stop left from stop last same =
      rw same (ends-here (call stop) stop left (loop base_backoff call left (suc stop)) last refl)

  -- One turn of the loop, by where its first call that is not transient is.
  turn :
      (left from stop : ℕ)
      → (rest : Trace base_backoff call) → is_transient (call from) ≡ true
      → Stops (suc from) stop rest
      → Stops from stop (after_call base_backoff call (call from) from (suc left) rest)
  turn left from stop rest h (e, k, s) =
      rw (goes-on (call from) from left rest h)
        (e, k, slept-sum base_backoff from stop (sum rest.sleeps) s)

  resumed :
      (left from stop : ℕ)
      → from ≤ stop
      → stop < from + suc left
      → ((n : ℕ) → from ≤ n → n < stop → is_transient (call n) ≡ true)
      → is_transient (call stop) ≡ false
      → from ≢ stop
      → (suc from ≤ stop
          → stop < suc from + left
          → ((n : ℕ) → suc from ≤ n → n < stop → is_transient (call n) ≡ true)
          → is_transient (call stop) ≡ false
          → Stops (suc from) stop (loop base_backoff call left (suc from)))
      → Stops from stop (
          after_call base_backoff call
            (call from)
            from
            left
            (loop base_backoff call left (suc from)))
  resumed zero from stop lo hi before last later next = absurd (omega (arith, lo, hi, later))
  resumed (suc left) from stop lo hi before last later next =
      turn left from stop (loop base_backoff call (suc left) (suc from))
        (before from (omega arith) (omega arith))
        (next (omega arith) (omega arith) (λ n lo' hi'. before n (omega arith) hi') last)

  -- The loop from call `from` on, with `left` attempts, up to its first call that is not transient.
  loop-Stops :
      (left from stop : ℕ)
      → from ≤ stop
      → stop < from + left
      → ((n : ℕ) → from ≤ n → n < stop → is_transient (call n) ≡ true)
      → is_transient (call stop) ≡ false
      → Stops from stop (loop base_backoff call left from)
  unfolding loop
  loop-Stops zero from stop lo hi before last = absurd (omega arith)
  loop-Stops (suc left) from stop lo hi before last = elim (ℕ_discrete from stop) [
    | yes same ↦ at-stop left from stop last same
    | no later ↦ resumed left from stop lo hi before last later (loop-Stops left (suc from) stop)
  ]

-- With at least one attempt, when the first call that is not transient (a value or a client error)
-- is call number `stop`, counted from zero and below `max_attempts`, the wrapper makes exactly
-- `stop + 1` calls, ends with that call's value or exception, and its sleeps add up to
-- `base_backoff * (2 ^ stop - 1)`.
pub retry_stops :
    {A : Type 0}
    → (base_backoff : ℕ) → (call : ℕ → Call A) → (max_attempts stop : ℕ) → stop < max_attempts
    → ((n : ℕ) → n < stop → is_transient (call n) ≡ true)
    → is_transient (call stop) ≡ false
    → ((retry base_backoff call max_attempts).ended ≡ outcome (call stop))
      × ((retry base_backoff call max_attempts).calls ≡ suc stop)
      × (sum (retry base_backoff call max_attempts).sleeps + base_backoff ≡ base_backoff * 2 ^ stop)
unfolding retry
retry_stops base_backoff call max_attempts stop hi before last =
    let (e, k, s) =
      loop-Stops base_backoff call max_attempts 0 stop (omega arith) (omega arith)
        (λ n lo below. before n below) last in
    (e, k, omega (arith, s))
