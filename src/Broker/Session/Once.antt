-- ===== src/Broker/Session/Once.antt =====
-- Repeated approvals of one action, with requests in between.
use suburban_soc.Base.{
  ℕ, String, ◌≡◌, refl, inl, inr, Bool, true, ◌&&◌, Option, some, List, [], ◌∷◌, ◌++◌, arith, ◌==◌,
  nat_eq, string_eq, Option-cases, any-append,
}
use text.Mathlib.TextPositions.{eq_refl}
use suburban_soc.Signing.{Crypto}
use suburban_soc.Broker.Exclusion.{Ipaddress}
use suburban_soc.Broker.Gate.{str, ok}
use suburban_soc.Broker.Fleet.{Tally}
use suburban_soc.Broker.Queue.{claimed_approver, Row, is_resolved, resolved}
use suburban_soc.Broker.Service.{Config, Payload, Request, State}
use suburban_soc.Broker.Alert.{receive_alert}
use suburban_soc.Broker.Dispatch.{dispatch_block}
use suburban_soc.Broker.Approve.{approved_row, ApproveReply, approve, list_pending}
use suburban_soc.Broker.Approve.Laws.{pending-resolved}
use suburban_soc.Broker.Gate.Denials.{parsed-body}
use suburban_soc.Broker.Session.{Endpoint, alert, dispatch, approval, pending, serve}

resolved-append :
    (id : String) (queue : List Row) (row : Row)
    → resolved id queue ≡ true
    → resolved id (queue ++ row ∷ []) ≡ true
unfolding resolved
resolved-append id queue row h =
    ground (arith, any-append (λ a. is_resolved a && a.id == id) queue (row ∷ []))

module _ (c : Crypto) (ip : Ipaddress) (is_control : ℕ → Bool) (cfg : Config)
    (loads : String → Option (Option Payload)) where
  resolved-alert :
      (id : String) (q : Request) (s : State)
      → resolved id s.queue ≡ true
      → resolved id (receive_alert c ip is_control cfg loads q s).1.queue ≡ true
  unfolding receive_alert
  resolved-alert id q s h = grind (arith, resolved-append)

  resolved-dispatch :
      (id : String) (q : Request) (s : State)
      → resolved id s.queue ≡ true
      → resolved id (dispatch_block c ip is_control cfg loads q s).1.queue ≡ true
  unfolding dispatch_block
  resolved-dispatch id q s h = grind (arith, resolved-append)

  resolved-approve :
      (id : String) (q : Request) (s : State)
      → resolved id s.queue ≡ true
      → resolved id (approve c ip is_control cfg loads q s).1.queue ≡ true
  unfolding approve
  resolved-approve id q s h = grind (arith, resolved-append)

  resolved-serve :
      (id : String) (events : List (Endpoint × Request)) (s : State)
      → resolved id s.queue ≡ true
      → resolved id (serve c ip is_control cfg loads events s).queue ≡ true
  unfolding serve list_pending
  resolved-serve id [] s h = h
  resolved-serve id ((alert, q) ∷ rest) s h = resolved-serve id rest _ (resolved-alert id q s h)
  resolved-serve id ((dispatch, q) ∷ rest) s h =
      resolved-serve id rest _ (resolved-dispatch id q s h)
  resolved-serve id ((approval, q) ∷ rest) s h =
      resolved-serve id rest _ (resolved-approve id q s h)
  resolved-serve id ((pending, q) ∷ rest) s h = resolved-serve id rest _ h

  -- A request whose body is a JSON object with this text as its `id`.
  pub record AsksFor (q : Request) (id : String) : Type 0 where
    pub payload : Payload
    pub loaded : loads q.message.body ≡ some (some payload)
    pub names_id : payload.id ≡ str id

  resolved-after :
      (id : String) (queue : List Row) (row : Row)
      → is_resolved row ≡ true
      → row.id ≡ id
      → resolved id (queue ++ row ∷ []) ≡ true
  unfolding resolved
  resolved-after id queue row h e =
      ground (arith, any-append (λ a. is_resolved a && a.id == id) queue (row ∷ []), eq_refl id)

  resolved-approved :
      (q : Request) (payload : Payload) (id tenant : String) (tally : Tally) (queue : List Row)
      → resolved id (queue ++ approved_row c ip is_control cfg q payload id tenant tally ∷ [])
        ≡ true
  unfolding approved_row
  resolved-approved q payload id tenant tally queue =
      elim (Option-cases (claimed_approver is_control payload.approver)) [
        | inl e ↦ rw e (resolved-after id queue _ refl refl)
        | inr (claimed, e) ↦ rw e (resolved-after id queue _ refl refl)
      ]

  approve_resolves :
      (id : String) (q : Request) (s : State) (r : ApproveReply)
      → AsksFor q id
      → (approve c ip is_control cfg loads q s).0 ≡ ok r
      → resolved id (approve c ip is_control cfg loads q s).1.queue ≡ true
  unfolding approve
  approve_resolves id q s r asks h = grind (
    arith,
    resolved-approved,
    asks.loaded,
    asks.names_id,
    parsed-body c cfg.window cfg.secret loads q.message q.now s.gate,
  )

  approve_silent :
      (id : String) (q : Request) (s : State)
      → AsksFor q id
      → resolved id s.queue ≡ true
      → (approve c ip is_control cfg loads q s).1.sent ≡ s.sent
  unfolding approve
  approve_silent id q s asks h = grind (
    arith,
    pending-resolved id s.queue h,
    asks.loaded,
    asks.names_id,
    parsed-body c cfg.window cfg.secret loads q.message q.now s.gate,
  )

  -- Once `approve` has dispatched an action, no later approval whose body names the same id sends a
  -- router anything, whatever requests come in between.
  pub approve_once :
      (id : String) (first again : Request) (s : State) (r : ApproveReply)
      (events : List (Endpoint × Request))
      → AsksFor first id
      → AsksFor again id
      → (approve c ip is_control cfg loads first s).0 ≡ ok r
      → (approve c ip is_control cfg loads again (
          serve c ip is_control cfg loads events
            (approve c ip is_control cfg loads first s).1)).1.sent
        ≡ (serve c ip is_control cfg loads events
            (approve c ip is_control cfg loads first s).1).sent
  approve_once id first again s r events asks asks_again h =
      approve_silent id again _ asks_again
        (resolved-serve id events _ (approve_resolves id first s r asks h))
