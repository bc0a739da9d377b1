-- ===== src/Agent/Routes/Separate.antt =====
-- The two secrets of the agent's routes.
use suburban_soc.Base.{
  ℕ, String, ◌≡◌, false, Option, some, List, [], arith, ◌==◌, nat_eq, string_eq,
}
use suburban_soc.Signing.{ℤ, Crypto, Cache, Signed, Verdict, accepted, signature, verify}
use suburban_soc.Signing.Accepts.{IsFresh, verify-signed}
use suburban_soc.Broker.Exclusion.{Ipaddress}
use suburban_soc.Agent.Isolation.{Outcome, is_accepted}
use suburban_soc.Agent.Execution.{Store}
use suburban_soc.Agent.Routes.{Parsed, Approval, Answered, if_accepted, approve_action, of_approval}

-- A message that is signed with `secret`.
abbrev pub signed_with : Crypto → (secret text body : String) → Signed
signed_with c secret text body = record {
  body = body;
  signature_header = some (signature c secret "" text body);
  timestamp_header = some text;
}

-- Under another secret, whose signature of the message differs, it is not accepted.
verify-other :
    (c : Crypto) (window : ℕ) (secret other_secret text body : String) (now : ℕ) (cache : Cache)
    → (signature c other_secret "" text body == signature c secret "" text body) ≡ false
    → is_accepted (verify c window "" other_secret (signed_with c secret text body) now cache).0
      ≡ false
unfolding verify
verify-other c window secret other_secret text body now cache differs = ground (arith, differs)

module _ (c : Crypto) (ip : Ipaddress) (window : ℕ) (alert_secret approver_secret : String) where
  refused :
      (v : Verdict × Cache) (go : Cache → Answered)
      → is_accepted v.0 ≡ false
      → ((if_accepted c ip window alert_secret approver_secret v go).status ≡ some 401)
        × ((if_accepted c ip window alert_secret approver_secret v go).effects ≡ [])
  unfolding if_accepted
  refused (verdict, cache) go h = ground (arith, h)

  -- The secret that signs alerts does not approve: a fresh message that is signed with it is
  -- accepted under that secret, but at `/approve`, if its signature under the approver's secret is
  -- another one, it is answered with 401 and has no effect, whatever its body asks for.
  pub credentials_separate :
      (text body : String) (ts : ℤ) (now : ℕ) (cache : Cache) (loads : String → Parsed Approval)
      (store : Store) (exclusions : Option (List String)) (broker : Outcome)
      → IsFresh c window "" alert_secret text body ts now cache
      → (signature c approver_secret "" text body == signature c alert_secret "" text body) ≡ false
      → ((verify c window "" alert_secret (signed_with c alert_secret text body) now cache).0
          ≡ accepted)
        × ((approve_action c ip window alert_secret approver_secret loads store exclusions broker
              (signed_with c alert_secret text body)
              now
              cache).status
            ≡ some 401)
        × ((approve_action c ip window alert_secret approver_secret loads store exclusions broker
              (signed_with c alert_secret text body)
              now
              cache).effects
            ≡ [])
  unfolding approve_action
  credentials_separate text body ts now cache loads store exclusions broker f differs =
      let (status, effects) =
        refused
          (verify c window "" approver_secret (signed_with c alert_secret text body) now cache)
          (of_approval c ip window alert_secret approver_secret store exclusions broker
            (loads body))
          (verify-other c window alert_secret approver_secret text body now cache differs) in
      (verify-signed c window "" alert_secret text body ts now cache f, status, effects)
