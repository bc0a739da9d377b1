-- ===== src/Signing/Replay.antt =====
-- What the nonce cache and the window of `verify` make of a message that was accepted before.
use native.Mathlib.Decide.{dec_lt}
use suburban_soc.Base.{
  ℕ, ◌+◌, ◌<◌, ◌≤◌, String, ◌≡◌, refl, ◌≢◌, Bool, true, false, some, List, [], ◌∷◌, leb, ◌==◌,
  string_eq, any, arith, beq_refl, ◌&&◌, All,
}
use suburban_soc.Signing.{ℤ, pos, distance, Crypto, Cache, purge, seen, Signed, accepted, verify}

-- The cache remembers `sig` until second `e` at least.
abbrev held : String → ℕ → Cache → Bool
held sig e = any (λ entry. entry.0 == sig && leb e entry.1)

held-purge :
    (sig : String) (now e : ℕ) (cache : Cache)
    → now < e
    → held sig e cache ≡ true
    → held sig e (purge now cache) ≡ true
held-purge sig now e [] h k = k
held-purge sig now e (x ∷ xs) h k = ground (arith, held-purge sig now e xs h)

seen-held : (sig : String) (e : ℕ) (cache : Cache) → held sig e cache ≡ true → seen sig cache ≡ true
seen-held sig e [] k = k
seen-held sig e (x ∷ xs) k = ground (arith, seen-held sig e xs)

abbrev pub message : String → String → String → Signed
message body sig text = record {
  body = body;
  signature_header = some sig;
  timestamp_header = some text;
}

All-lt :
    (t e : ℕ) (arrivals : List (ℕ × Signed))
    → t < e
    → All (λ a. a.0 ≤ t) arrivals
    → All (λ a. a.0 < e) arrivals
All-lt t e [] h k = k
All-lt t e (x ∷ xs) h k = (omega (arith, k.0), All-lt t e xs h k.1)

-- A purge brings nothing back.
seen-purge :
    (sig : String) (t : ℕ) (cache : Cache)
    → seen sig cache ≡ false
    → seen sig (purge t cache) ≡ false
seen-purge sig t [] h = refl
seen-purge sig t (x ∷ xs) h = ground (arith, seen-purge sig t xs)

module _ (c : Crypto) (window : ℕ) (domain secret : String) where
  -- Checks at earlier seconds do not drop it, whatever they are given.
  held-verify :
      (m : Signed) (sig : String) (now e : ℕ) (cache : Cache)
      → now < e
      → held sig e cache ≡ true
      → held sig e (verify c window domain secret m now cache).1 ≡ true
  unfolding verify
  held-verify m sig now e cache h k = ground (arith, held-purge sig now e cache h k)

  verify-held :
      (m : Signed) (sig : String) (now e : ℕ) (cache : Cache)
      → m.signature_header ≡ some sig
      → now < e
      → held sig e cache ≡ true
      → (verify c window domain secret m now cache).0 ≢ accepted
  unfolding verify
  verify-held m sig now e cache is h k =
      ground (arith, held-purge sig now e cache h k, seen-held sig e (purge now cache))

  -- What an accepted message has shown, and what the cache holds after it.
  verify_accepted :
      (body sig text : String) (ts : ℤ) (now : ℕ) (cache : Cache)
      → c.parse_int text ≡ some ts
      → (verify c window domain secret (message body sig text) now cache).0 ≡ accepted
      → (distance now ts ≤ window)
        × (held sig
              (now + window)
              (verify c window domain secret (message body sig text) now cache).1
            ≡ true)
  unfolding verify
  verify_accepted body sig text ts now cache p h = ground (arith, beq_refl sig)

  -- The messages that arrive one after the other, each at its second.
  pub receive : List (ℕ × Signed) → Cache → Cache
  receive [] cache = cache
  receive ((now, m) ∷ rest) cache = receive rest (verify c window domain secret m now cache).1

  receive-held :
      (sig : String) (e : ℕ) (arrivals : List (ℕ × Signed)) (cache : Cache)
      → All (λ a. a.0 < e) arrivals
      → held sig e cache ≡ true
      → held sig e (receive arrivals cache) ≡ true
  unfolding receive
  receive-held sig e [] cache h k = k
  receive-held sig e ((now, m) ∷ rest) cache h k =
      receive-held sig e rest _ h.1 (held-verify m sig now e cache h.0 k)

  -- Once a message is accepted at second `now`, a message with its signature is refused at every
  -- second before `now + window`, whatever arrived before that second in between.
  pub replay_refused :
      (body sig text : String) (ts : ℤ) (now t : ℕ) (cache : Cache) (arrivals : List (ℕ × Signed))
      (again : Signed)
      → c.parse_int text ≡ some ts
      → (verify c window domain secret (message body sig text) now cache).0 ≡ accepted
      → All (λ a. a.0 < now + window) arrivals
      → t < now + window
      → again.signature_header ≡ some sig
      → (verify c window domain secret again t
          (receive arrivals (verify c window domain secret (message body sig text) now cache).1)).0
        ≢ accepted
  replay_refused body sig text ts now t cache arrivals again p h early before same =
      verify-held again sig t (now + window) _ same before (
        receive-held sig (now + window) arrivals _ early
          (verify_accepted body sig text ts now cache p h).1)

  -- A message whose timestamp lies strictly before the second of its acceptance is never accepted
  -- again: neither while the cache holds it nor after.
  pub past_replay_refused :
      (body sig text : String) (ts now t : ℕ) (cache : Cache) (arrivals : List (ℕ × Signed))
      → c.parse_int text ≡ some (pos ts)
      → ts < now
      → (verify c window domain secret (message body sig text) now cache).0 ≡ accepted
      → All (λ a. a.0 ≤ t) arrivals
      → (verify c window domain secret
          (message body sig text)
          t
          (receive arrivals (verify c window domain secret (message body sig text) now cache).1)).0
        ≢ accepted
  past_replay_refused body sig text ts now t cache arrivals p past h upto =
      elim (dec_lt t (now + window)) [
        | yes before ↦
            replay_refused body sig text (pos ts) now t cache arrivals (message body sig text) p h
              (All-lt t (now + window) arrivals before upto) before refl
        | no late ↦ λ again.
            let shown = verify_accepted body sig text (pos ts) t _ p again in
            absurd (omega (arith, shown.0))
      ]

  -- The window and the cache end at different seconds: a message that is stamped with the second of
  -- its acceptance, or with a later one, is accepted a second time `window` seconds afterwards.
  pub replay_accepted :
      (body sig text : String) (ts now : ℕ) (cache : Cache)
      → c.parse_int text ≡ some (pos ts)
      → now ≤ ts
      → (verify c window domain secret (message body sig text) now cache).0 ≡ accepted
      → (verify c window domain secret
          (message body sig text)
          (now + window)
          (verify c window domain secret (message body sig text) now cache).1).0
        ≡ accepted
  unfolding verify
  replay_accepted body sig text ts now cache p ahead h =
      ground (arith, seen-purge sig (now + window) (purge now cache))
