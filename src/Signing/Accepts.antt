-- ===== src/Signing/Accepts.antt =====
-- `verify` on a message that was signed with its own secret.
use suburban_soc.Base.{
  ℕ, ◌≤◌, String, ◌≡◌, true, false, some, arith, ◌==◌, nat_eq, string_eq, beq_refl,
}
use suburban_soc.Signing.{
  ℤ, distance, Crypto, Cache, purge, seen, accepted, is_ascii, signature, verify,
}

-- What a fresh message takes to be accepted: a secret, a timestamp that parses, lies in the window
-- and is not empty, a signature in ASCII that is not empty, and a signature that the cache does not hold.
pub record IsFresh (c : Crypto) (window : ℕ) (domain secret text body : String) (ts : ℤ) (now : ℕ)
    (cache : Cache) : Type 0 where
  pub has_secret : (secret == "") ≡ false
  pub has_text : (text == "") ≡ false
  pub parses : c.parse_int text ≡ some ts
  pub in_window : distance now ts ≤ window
  pub signature_set : (signature c secret domain text body == "") ≡ false
  pub ascii : is_ascii (signature c secret domain text body) ≡ true
  pub unseen : seen (signature c secret domain text body) (purge now cache) ≡ false

pub verify-signed :
    (c : Crypto) (window : ℕ) (domain secret text body : String) (ts : ℤ) (now : ℕ) (cache : Cache)
    → IsFresh c window domain secret text body ts now cache
    → (verify c window domain secret
        (record {
          body = body;
          signature_header = some (signature c secret domain text body);
          timestamp_header = some text;
        })
        now
        cache).0
      ≡ accepted
unfolding verify
verify-signed c window domain secret text body ts now cache f = ground (
  arith,
  f.has_secret,
  f.has_text,
  f.parses,
  f.in_window,
  f.signature_set,
  f.ascii,
  f.unseen,
  beq_refl (signature c secret domain text body),
)
