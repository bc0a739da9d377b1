-- ===== src/Agent/Isolation/Truth.antt =====
-- What the agent reports of a dispatch, against what the broker's routers did.
use suburban_soc.Base.{
  ℕ, ◌+◌, ◌≤◌, ◌<◌, String, ◌≡◌, refl, sym, ap, ◌∙◌, Bool, true, false, ◌||◌, Option, none, some,
  List, arith, ◌==◌, nat_eq, string_eq, if◌then◌else◌,
}
use suburban_soc.Signing.{pos, Crypto, Cache}
use suburban_soc.Broker.Gate.{str}
use suburban_soc.Broker.Exclusion.{Ipaddress, is_excluded_ip}
use suburban_soc.Broker.Inventory.{Router}
use suburban_soc.Broker.Router.{Sent}
use suburban_soc.Broker.Router.Sound.{IsFaithful}
use suburban_soc.Broker.Fleet.{Tally, dispatch_block_to_all}
use suburban_soc.Broker.Fleet.Counts.{Observed, links_of, blocked, inferred, tally_brackets}
use suburban_soc.Agent.Isolation.{Data, Response, counted, data_or_none, dispatch_block_via_broker}
use suburban_soc.Agent.Isolation.Outcomes.{
  verdict_of, is_genuine, believed, expected, known_exactly,
}

-- The keys of the broker's answer to a dispatch that it executed.
abbrev pub data_of : String → Tally → Data
data_of request_id tally = record {
  is_empty = false;
  request_id = str request_id;
  executed = true;
  success_count = some (pos tally.success_count);
  unknown_count = some (pos tally.unknown_count);
}

-- What the agent takes a known outcome for, of the number of routers that hold the element: some do
-- after a success, and after a failure at most those whose absence was inferred.
abbrev pub Tells : Bool → (blocked inferred : ℕ) → Type 0
Tells true blocked inferred = 0 < blocked
Tells false blocked inferred = blocked ≤ inferred

counts_say :
    (tally : Tally) (n k : ℕ) (b : Bool)
    → verdict_of (counted true (some (pos tally.success_count)) (some (pos tally.unknown_count)))
      ≡ some b
    → tally.success_count ≤ n
    → n ≤ tally.success_count + tally.unknown_count + k
    → Tells b n k
unfolding counted
counts_say tally n k true h lo hi = ground (arith, h, lo, hi)
counts_say tally n k false h lo hi = ground (arith, h, lo, hi)

guarded :
    (p q : Bool) (x : Option Bool) (b : Bool)
    → (if p then none else if q then x else none) ≡ some b
    → x ≡ some b
guarded p q x b h = ground (arith, h)

module _ (c : Crypto) (window : ℕ) (secret : String) (loads : String → Option Data) where
  believed-counts :
      (request_id sent_id : String) (r : Response) (tally : Tally) (b : Bool)
      → r.status_code ≡ 200
      → believed c window secret loads request_id r (data_of sent_id tally) ≡ some b
      → verdict_of (counted true (some (pos tally.success_count)) (some (pos tally.unknown_count)))
        ≡ some b
  believed-counts request_id sent_id r tally b ok h = ground (arith, ok, h)

  expected-believed :
      (request_id : String) (r : Response) (now : ℕ) (cache : Cache) (b : Bool)
      → expected c window secret loads request_id (some r) now cache ≡ some b
      → believed c window secret loads request_id r (data_or_none (loads r.content.body)) ≡ some b
  expected-believed request_id r now cache b h =
      guarded ((r.status_code == 500) || (r.status_code == 504))
        (is_genuine c window secret loads r now cache)
        (believed c window secret loads request_id r (data_or_none (loads r.content.body))) b h

  read_body :
      (request_id sent_id : String) (r : Response) (tally : Tally) (b : Bool)
      → loads r.content.body ≡ some (data_of sent_id tally)
      → believed c window secret loads request_id r (data_or_none (loads r.content.body)) ≡ some b
      → believed c window secret loads request_id r (data_of sent_id tally) ≡ some b
  read_body request_id sent_id r tally b body h =
      ap (λ d. believed c window secret loads request_id r (data_or_none d)) (sym body) ∙ h

  given_secret :
      (known_or_not : Option Bool) (x : Option Bool)
      → (secret == "") ≡ false
      → known_or_not ≡ (if secret == "" then some false else x)
      → known_or_not ≡ x
  given_secret k x set e = e ∙ rw set refl

  module _ (ip : Ipaddress) (set : String) where
    -- A known outcome tells the truth. Let a block command that ends cleanly have put the element into
    -- the router's set, and one that exits with an error have not. With a secret, for an address
    -- that the broker does not exclude, if the broker's dispatch came to `tally`, a response with
    -- status 200 carries its two counts, and the agent's dispatch ends in a known outcome, then: after
    -- a success some router holds the element; and after a failure, which may be retried, no router
    -- does, up to those where the end of the block command was not known and the follow-up exited
    -- with status 1.
    pub retry_safe :
        (dumps : String → String → String → String → String)
        (attacker_ip tenant source_mac request_id sent_id timestamp : String) (r : Response)
        (now : ℕ) (cache : Cache) (file : Option (List String)) (routers : List Router)
        (os : Observed) (tally : Tally) (sent : List Sent) (b : Bool)
        → (secret == "") ≡ false
        → ((n : ℕ) → IsFaithful (os n).0 (os n).1)
        → is_excluded_ip ip file attacker_ip ≡ some false
        → dispatch_block_to_all ip set attacker_ip file routers (links_of os) ≡ some (tally, sent)
        → r.status_code ≡ 200
        → loads r.content.body ≡ some (data_of sent_id tally)
        → verdict_of
            (dispatch_block_via_broker c window secret loads dumps attacker_ip tenant source_mac
              request_id timestamp
              (some r)
              now
              cache).0
          ≡ some b
        → Tells b (blocked ip set attacker_ip routers os) (inferred ip set attacker_ip routers os)
    retry_safe dumps attacker_ip tenant source_mac request_id sent_id timestamp r now cache file
          routers os tally sent b set_ faithful open_ dispatched ok body h =
        let said = given_secret _ _ set_ (
          known_exactly c window secret loads dumps attacker_ip tenant source_mac request_id
            timestamp (some r) now cache) in
        let bounds =
          tally_brackets ip set attacker_ip file routers os tally sent faithful open_ dispatched in
        counts_say tally (blocked ip set attacker_ip routers os)
          (inferred ip set attacker_ip routers os) b
          (believed-counts request_id sent_id r tally b ok (
            read_body request_id sent_id r tally b body
              (expected-believed request_id r now cache b (sym said ∙ h))))
          bounds.0 bounds.1
