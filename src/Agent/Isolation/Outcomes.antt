-- ===== src/Agent/Isolation/Outcomes.antt =====
-- What a known outcome of a dispatch says.
use suburban_soc.Base.{
  ℕ, String, ◌≡◌, refl, ◌∙◌, inl, inr, Bool, false, not, ◌||◌, Option, none, some, List, arith,
  ◌==◌, nat_eq, string_eq, if◌then◌else◌, Bool-cases,
}
use suburban_soc.Signing.{Crypto, Cache, Verdict, verify}
use suburban_soc.Agent.Isolation.{
  Data, Response, Outcome, known, outcome_unknown, Post, Event, echoes, counted, confirmed,
  data_or_none, is_accepted, received, verified, sign_request, after_post,
  dispatch_block_via_broker,
}

-- The known outcome, if it is one.
abbrev pub verdict_of : Outcome → Option Bool
verdict_of (known b) = some b
verdict_of (outcome_unknown _) = none

module _ (c : Crypto) (window : ℕ) (secret : String) (loads : String → Option Data) where
  -- The response is the broker's: the gate accepts its signature under the domain of responses.
  abbrev pub is_genuine : Response → ℕ → Cache → Bool
  is_genuine r now cache =
      is_accepted (verify c window "broker-response:" secret r.content now cache).0

  -- The outcome of a response that the function believes.
  abbrev pub believed : String → Response → Data → Option Bool
  believed request_id r body =
      if not (echoes request_id body.request_id r.request_id_header)
      then none
      else if r.status_code == 200
      then (if body.is_empty
          then none
          else verdict_of (counted body.executed body.success_count body.unknown_count))
      else some false

  abbrev pub expected : String → Option Response → ℕ → Cache → Option Bool
  expected request_id none now cache = none
  expected request_id (some r) now cache =
      if (r.status_code == 500) || (r.status_code == 504)
      then none
      else if is_genuine r now cache
      then believed request_id r (data_or_none (loads r.content.body))
      else none

  confirmed_exactly :
      (request_id : String) (r : Response) (body : Data)
      → verdict_of (confirmed request_id r body).0 ≡ believed request_id r body
  unfolding confirmed
  confirmed_exactly request_id r body = ground arith

  verified_exactly :
      (request_id : String) (r : Response) (v : Verdict × Cache)
      → verdict_of (verified c window secret loads request_id r v).0 ≡ (
          if is_accepted v.0
          then believed request_id r (data_or_none (loads r.content.body))
          else none)
  unfolding verified
  verified_exactly request_id r (v, cache) = elim (Bool-cases (is_accepted v)) [
    | inl good ↦ rw good (confirmed_exactly request_id r (data_or_none (loads r.content.body)))
    | inr bad ↦ rw bad refl
  ]

  received_exactly :
      (request_id : String) (reply : Option Response) (now : ℕ) (cache : Cache)
      → verdict_of (received c window secret loads request_id reply now cache).0
        ≡ expected request_id reply now cache
  unfolding received
  received_exactly request_id none now cache = refl
  received_exactly request_id (some r) now cache =
      elim (Bool-cases ((r.status_code == 500) || (r.status_code == 504))) [
        | inl doubt ↦ rw doubt refl
        | inr fine ↦ rw fine (
            verified_exactly request_id r
              (verify c window "broker-response:" secret r.content now cache))
      ]

  after_post-verdict :
      (p : Post) (o : Outcome × (Cache × List Event))
      → verdict_of (after_post c window secret loads p o).0 ≡ verdict_of o.0
  unfolding after_post
  after_post-verdict p (outcome, (cache, events)) = refl

  -- When the outcome of a dispatch is known, and which: without a secret it is a failure. With one,
  -- it is unknown if there is no response, on a status of 500 or 504, and unless the gate accepts
  -- the response's signature and the response echoes the request_id. A response that passes is a
  -- failure on a status other than 200, and is judged by its counts on a 200 with a JSON object.
  pub known_exactly :
      (dumps : String → String → String → String → String)
      (attacker_ip tenant source_mac request_id timestamp : String) (reply : Option Response)
      (now : ℕ) (cache : Cache)
      → verdict_of
          (dispatch_block_via_broker c window secret loads dumps attacker_ip tenant source_mac
            request_id timestamp reply now cache).0
        ≡ (if secret == "" then some false else expected request_id reply now cache)
  unfolding dispatch_block_via_broker
  known_exactly dumps attacker_ip tenant source_mac request_id timestamp reply now cache =
      elim (Bool-cases (secret == "")) [
        | inl unset ↦ rw unset refl
        | inr set ↦ rw set (
            after_post-verdict
              (sign_request c window secret timestamp
                (dumps attacker_ip tenant source_mac request_id))
              (received c window secret loads request_id reply now cache)
            ∙ received_exactly request_id reply now cache)
      ]
