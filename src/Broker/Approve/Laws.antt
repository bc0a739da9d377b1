-- ===== src/Broker/Approve/Laws.antt =====
-- `approve` on an id that is resolved.
use suburban_soc.Base.{
  ℕ, String, ◌≡◌, refl, Bool, true, false, none, List, [], ◌∷◌, arith, ◌==◌, nat_eq, string_eq,
  eq_of_beq, select,
}
use suburban_soc.Signing.{Crypto}
use suburban_soc.Broker.Exclusion.{Ipaddress}
use suburban_soc.Broker.Gate.{str}
use suburban_soc.Broker.Queue.{Row, resolved, pending_rows, last_with_id}
use suburban_soc.Broker.Service.{Config, Payload, Request, State}
use suburban_soc.Broker.Approve.{approve_id}

-- A resolved id has no pending row.
last-select :
    (id : String) (p : Row → Bool) (rows : List Row)
    → ((a : Row) → (a.id == id) ≡ true → p a ≡ false)
    → last_with_id id (select p rows) ≡ none
unfolding last_with_id
last-select id p [] h = refl
last-select id p (a ∷ rows) h = ground (arith, h a, last-select id p rows h)

pub pending-resolved :
    (id : String) (queue : List Row)
    → resolved id queue ≡ true
    → last_with_id id (pending_rows queue) ≡ none
unfolding pending_rows
pending-resolved id queue h =
    last-select id _ queue (λ a same. let e = eq_of_beq a.id id same in rw (e, h) (ground arith))

module _ (c : Crypto) (ip : Ipaddress) (is_control : ℕ → Bool) (cfg : Config) where
  -- What `approve` does with an id that is resolved, or with none.
  approve_id-resolved :
      (q : Request) (payload : Payload) (id : String) (s : State)
      → resolved id s.queue ≡ true
      → ((approve_id c ip is_control cfg q payload (str id) s).1 ≡ s)
  unfolding approve_id
  approve_id-resolved q payload id s h = ground (arith, pending-resolved id s.queue h)
