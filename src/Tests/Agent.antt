-- ===== src/Tests/Agent.antt =====
-- The agent on a dispatch that one router confirmed and one did not, and its other components.
use suburban_soc.Base.{
  ℕ, ◌+◌, ◌*◌, ◌^◌, ◌<◌, String, ◌≡◌, refl, ◌≢◌, ◌↔◌, true, false, Option, none, some, List, [],
  ◌∷◌, arith, ◌==◌, nat_eq, string_eq, if◌then◌else◌,
}
use suburban_soc.Base.Text.{strip, before_hash}
use suburban_soc.Signing.{accepted, verify, signature, is_ascii, pos}
use suburban_soc.Broker.Exclusion.{is_excluded_ip}
use suburban_soc.Broker.Fleet.Counts.{blocked}
use suburban_soc.Broker.Gate.{str}
use suburban_soc.Agent.Excluded.{is_excluded}
use suburban_soc.Agent.Excluded.Agrees.{agent_excludes}
use suburban_soc.Agent.Retry.{reraised, Call, other_error, retry}
use suburban_soc.Agent.Retry.Backoff.{sum}
use suburban_soc.Agent.Retry.Exhausted.{retry_exhausts}
use suburban_soc.Agent.Suppress.{should_suppress_technique}
use suburban_soc.Agent.Suppress.Window.{firing, answer_of, play, in_window, suppression_exact}
use suburban_soc.Agent.Isolation.{Data, Response, known, dispatch_block_via_broker}
use suburban_soc.Agent.Isolation.Outcomes.{verdict_of}
use suburban_soc.Agent.Isolation.Trusted.{Trusted, known_iff_Trusted}
use suburban_soc.Agent.Isolation.Truth.{data_of, retry_safe}
use suburban_soc.Agent.Execution.{Store, execute_approved}
use suburban_soc.Agent.Routes.{Parsed, object, Approval, approve_action}
use suburban_soc.Agent.Routes.Separate.{signed_with, credentials_separate}
use suburban_soc.Signing.Accepts.{IsFresh}
use suburban_soc.Agent.Execution.Once.{
  Settles, attempted, dispatches, final, execute_approved-Settles,
}
use suburban_soc.Tests.Fixtures.{crypto, addresses, address, number, signed}
use suburban_soc.Tests.Broker.{
  list, two, observed, tally, add_both, dispatched, observed-IsFaithful,
}

abbrev response : Response
response = record {
  status_code = 200;
  content = signed "broker-response:" "100" "{}";
  request_id_header = none;
}

abbrev loads : String → Option Data
loads text = if text == "{}" then some (data_of "r1" tally) else none

abbrev dumps : String → String → String → String → String
dumps attacker_ip tenant mac request_id = attacker_ip

known_iff_Trusted_example :
    (verdict_of
        (dispatch_block_via_broker crypto 60 "k" loads dumps "6.6.6.6" "acme" "" "r1" "100"
          (some response)
          100
          []).0
      ≡ some true)
    ↔ ((r : Response) × (some response ≡ some r) × Trusted crypto 60 "k" loads "r1" 100 [] true r)
known_iff_Trusted_example =
    known_iff_Trusted crypto 60 "k" loads dumps "6.6.6.6" "acme" "" "r1" "100" (some response) 100
      [] true refl

retry_safe_example : 0 < blocked addresses "blocked" "6.6.6.6" two observed
unfolding dispatch_block_via_broker verify signature number is_excluded_ip address strip before_hash
retry_safe_example =
    retry_safe crypto 60 "k" loads addresses "blocked" dumps "6.6.6.6" "acme" "" "r1" "r1" "100"
      response 100 [] list two observed tally add_both true refl observed-IsFaithful refl dispatched
      refl refl refl

agent_excludes_example : is_excluded addresses list "192.168.1.1" "" ≢ none
unfolding is_excluded_ip address strip before_hash
agent_excludes_example =
    agent_excludes addresses list "192.168.1.1" "" refl (λ entry h. ground (arith, h)) refl

abbrev failing : ℕ → Call String
failing n = other_error

retry_exhausts_example :
    ((retry 1 failing 3).ended ≡ reraised other_error)
    × ((retry 1 failing 3).calls ≡ 3)
    × (sum (retry 1 failing 3).sleeps + 1 ≡ 1 * 2 ^ 2)
retry_exhausts_example = retry_exhausts 1 failing 2 (λ n h. refl)

abbrev past : List (String × ℕ)
past = ("high", 500) ∷ ("high", 100) ∷ []

suppression_exact_example :
    (should_suppress_technique 900 3600
      (firing "AABB" "T1110" "high" 700)
      (answer_of (play 900 3600 "AABB" "T1110" past).stored)
      true).returned
    ≡ some (
        in_window 900 3600
          (play 900 3600 "AABB" "T1110" past).last
          (play 900 3600 "AABB" "T1110" past).alert
          (firing "AABB" "T1110" "high" 700))
suppression_exact_example = suppression_exact 900 3600 "AABB" "T1110" past "high" 700 refl refl

abbrev store : Store
store = record {
  is_awaiting_approval = some true;
  claim_approval = some true;
  read_checkpoint = some (
      some (record {
        perceived = some (record { tenant_id = "acme"; target_ip = "6.6.6.6"; target_mac = "" });
        case_id = "c1";
      }));
  releases = true;
}

execute_approved-Settles_example :
    Settles
      (dispatches addresses list (attempted store "acme"))
      (final addresses list (known false) (attempted store "acme"))
      true
      (execute_approved addresses store "acme" list (known false))
execute_approved-Settles_example =
    execute_approved-Settles addresses store "acme" list (known false)

abbrev asks : String → Parsed Approval
asks text = object (record { id = str "a1"; tenant_id = "acme" })

alert-IsFresh : IsFresh crypto 60 "" "k" "100" "hello" (pos 100) 110 []
unfolding number signature is_ascii
alert-IsFresh = record {
  has_secret = refl;
  has_text = refl;
  parses = refl;
  in_window = omega arith;
  signature_set = refl;
  ascii = refl;
  unseen = refl;
}

credentials_separate_example :
    ((verify crypto 60 "" "k" (signed_with crypto "k" "100" "hello") 110 []).0 ≡ accepted)
    × ((approve_action crypto addresses 60 "k" "other" asks store list
          (known true)
          (signed_with crypto "k" "100" "hello")
          110
          []).status
        ≡ some 401)
    × ((approve_action crypto addresses 60 "k" "other" asks store list
          (known true)
          (signed_with crypto "k" "100" "hello")
          110
          []).effects
        ≡ [])
unfolding signature
credentials_separate_example =
    credentials_separate crypto addresses 60 "k" "other" "100" "hello" (pos 100) 110 [] asks store
      list (known true) alert-IsFresh refl
