-- ===== src/Tests/Signing.antt =====
-- A message signed at second 100, seen again; and tenants.
use suburban_soc.Base.{ℕ, ◌+◌, String, ◌≡◌, refl, ◌≢◌, List, [], ◌∷◌, arith, nat_eq, string_eq}
use suburban_soc.Signing.{pos, Signed, accepted, verify, signature, is_ascii}
use suburban_soc.Signing.Accepts.{IsFresh}
use suburban_soc.Broker.Gate.{ok, GateState, verify_request}
use suburban_soc.Agent.Isolation.{sign_request}
use suburban_soc.Agent.Isolation.Roundtrip.{arrived, request_accepted}
use suburban_soc.Signing.Replay.{message, receive, past_replay_refused, replay_accepted}
use suburban_soc.Tests.Fixtures.{number, crypto}

abbrev sig : String
sig = "sha256=k/100.hello"

abbrev hello : Signed
hello = message "hello" sig "100"

abbrev after : ℕ → List (String × ℕ)
after now = (verify crypto 60 "" "k" hello now []).1

past_replay_refused_example :
    (verify crypto 60 "" "k" hello 165 (receive crypto 60 "" "k" ((120, hello) ∷ []) (after 110))).0
    ≢ accepted
unfolding verify number signature
past_replay_refused_example =
    past_replay_refused crypto 60 "" "k" "hello" sig "100" 100 110 165 [] ((120, hello) ∷ []) refl
      (omega arith) refl (omega arith, tt)

replay_accepted_example : (verify crypto 60 "" "k" hello (100 + 60) (after 100)).0 ≡ accepted
unfolding verify number signature
replay_accepted_example =
    replay_accepted crypto 60 "" "k" "hello" sig "100" 100 100 [] refl (omega arith) refl

abbrev fresh_gate : GateState
fresh_gate = record { cache = []; denials = [] }

abbrev show : ℕ → String
show n = "100"

hello-IsFresh : IsFresh crypto 60 "" "k" "100" "hello" (pos 100) 110 []
unfolding number signature is_ascii
hello-IsFresh = record {
  has_secret = refl;
  has_text = refl;
  parses = refl;
  in_window = omega arith;
  signature_set = refl;
  ascii = refl;
  unseen = refl;
}

answer-IsFresh : IsFresh crypto 60 "broker-response:" "k" (show 100) "{}" (pos 100) 110 []
unfolding number signature is_ascii
answer-IsFresh = record {
  has_secret = refl;
  has_text = refl;
  parses = refl;
  in_window = omega arith;
  signature_set = refl;
  ascii = refl;
  unseen = refl;
}

request_accepted_example :
    (verify_request crypto 60 "k"
      (arrived (sign_request crypto 60 "k" "100" "hello"))
      110
      fresh_gate).0
    ≡ ok "hello"
request_accepted_example =
    request_accepted crypto 60 "k" "hello" "100" (pos 100) 110 fresh_gate hello-IsFresh
