-- ===== src/Agent/Pending/Shown.antt =====
-- What `/pending` lists of an id, and that a compaction of the queue does not change it.
use suburban_soc.Archive.{
  Entry, Line, entries, Files, has_id, latest, agent_terminal, compact_agent,
}
use suburban_soc.Agent.Pending.{
  present, read_queue, same_key, set_latest, latest_status, is_resolved, pending_of, list_pending,
}
use suburban_soc.Signing.{Crypto, Cache, Signed, verify}
use suburban_soc.Agent.Isolation.{is_accepted}
use suburban_soc.Archive.Kept.{awaiting, compact_agent-awaiting}
use suburban_soc.Base.{
  ℕ, String, ◌≡◌, refl, sym, ap, ◌∙◌, inl, inr, Bool, true, false, not, Option, none, some, List,
  [], ◌∷◌, arith, ◌==◌, nat_eq, string_eq, eq_of_beq, if◌then◌else◌, Bool-cases, select,
}

-- The rows of one id.
abbrev pub of_id : String → List Entry → List Entry
of_id id rows = select (has_id id) rows

abbrev pub rows_of : Option Entry → List Entry
rows_of none = []
rows_of (some e) = e ∷ []

key_eq : (i j : Option String) → same_key i j ≡ true → i ≡ j
key_eq none none h = refl
key_eq none (some j) h = absurd (ground (arith, h))
key_eq (some i) none h = absurd (ground (arith, h))
key_eq (some i) (some j) h = ap (λ k. some k) (eq_of_beq i j h)

abbrev is_key : String → Option String → Bool
is_key id none = false
is_key id (some i) = i == id

-- A row has the key of a row of `id` just if it is one.
same-key : (id : String) (i j : Option String) → is_key id j ≡ true → same_key i j ≡ is_key id i
same-key id i none h = absurd (ground (arith, h))
same-key id none (some j) h = refl
same-key id (some i) (some j) h = rw (eq_of_beq j id h) refl

other-key :
    (id : String) (i j : Option String)
    → is_key id j ≡ false
    → same_key i j ≡ true
    → is_key id i ≡ false
other-key id i j h same = ap (is_key id) (key_eq i j same) ∙ h

set_latest-other :
    (id : String) (action : Entry) (rows : List Entry)
    → has_id id action ≡ false
    → of_id id (set_latest action rows) ≡ of_id id rows
unfolding set_latest
set_latest-other id action [] h = ground (arith, h)
set_latest-other id action (a ∷ rows) h = elim (Bool-cases (same_key a.id action.id)) [
  | inl same ↦ rw same (ground (arith, h, other-key id a.id action.id h same))
  | inr differ ↦ rw differ (ground (arith, set_latest-other id action rows h))
]

of_id-here :
    (id : String) (a : Entry) (rows : List Entry)
    → has_id id a ≡ true
    → of_id id (a ∷ rows) ≡ a ∷ of_id id rows
of_id-here id a rows h = rw h refl

of_id-there :
    (id : String) (a : Entry) (rows : List Entry)
    → has_id id a ≡ false
    → of_id id (a ∷ rows) ≡ of_id id rows
of_id-there id a rows h = rw h refl

none-behind :
    (a : Entry) (rows : List Entry) (found : Option Entry) → a ∷ rows ≡ rows_of found → rows ≡ []
none-behind a rows none h = cc
none-behind a rows (some e) h = cc

set_latest-same :
    (id : String) (action : Entry) (rows : List Entry) (found : Option Entry)
    → has_id id action ≡ true
    → of_id id rows ≡ rows_of found
    → of_id id (set_latest action rows) ≡ action ∷ []
unfolding set_latest
set_latest-same id action [] found h s = ground (arith, h)
set_latest-same id action (a ∷ rows) found h s = elim (Bool-cases (has_id id a)) [
  | inl here ↦
      let none_left = none-behind a (of_id id rows) found (sym (of_id-here id a rows here) ∙ s) in
      rw (same-key id a.id action.id h ∙ here)
        (of_id-here id action rows h ∙ ap (λ r. action ∷ r) none_left)
  | inr there ↦ rw (same-key id a.id action.id h ∙ there) (
      of_id-there id a (set_latest action rows) there
      ∙ set_latest-same id action rows found h (sym (of_id-there id a rows there) ∙ s))
]

abbrev or_found : Option Entry → Option Entry → Option Entry
or_found none found = found
or_found (some l) found = some l

or_found-twice :
    (o found : Option Entry) (e : Entry)
    → or_found o (some e) ≡ or_found (or_found o (some e)) found
or_found-twice none found e = refl
or_found-twice (some l) found e = refl

latest-here :
    (id : String) (e : Entry) (es : List Entry)
    → has_id id e ≡ true
    → latest id (e ∷ es) ≡ or_found (latest id es) (some e)
unfolding latest
latest-here id e es h = ground (arith, h)

latest-there :
    (id : String) (e : Entry) (es : List Entry)
    → has_id id e ≡ false
    → latest id (e ∷ es) ≡ latest id es
unfolding latest
latest-there id e es h = ground (arith, h)

latest-none : (id : String) → none ≡ latest id []
unfolding latest
latest-none id = refl

latest_status-exact :
    (id : String) (actions rows : List Entry) (found : Option Entry)
    → of_id id rows ≡ rows_of found
    → of_id id (latest_status actions rows) ≡ rows_of (or_found (latest id actions) found)
unfolding latest_status
latest_status-exact id [] rows found s = s ∙ ap (λ o. rows_of (or_found o found)) (latest-none id)
latest_status-exact id (action ∷ actions) rows found s = elim (Bool-cases (has_id id action)) [
  | inl here ↦
      latest_status-exact id actions (set_latest action rows) (some action)
        (set_latest-same id action rows found here s)
      ∙ ap rows_of (or_found-twice (latest id actions) found action)
      ∙ ap (λ o. rows_of (or_found o found)) (sym (latest-here id action actions here))
  | inr there ↦
      latest_status-exact id actions (set_latest action rows) found
        (set_latest-other id action rows there ∙ s)
      ∙ ap (λ o. rows_of (or_found o found)) (sym (latest-there id action actions there))
]

select-commute :
    (p q : Entry → Bool) (rows : List Entry) → select p (select q rows) ≡ select q (select p rows)
select-commute p q [] = refl
select-commute p q (r ∷ rows) = ground (arith, select-commute p q rows)

unresolved_rows :
    (found : Option Entry)
    → select (λ a. not (is_resolved a)) (rows_of found)
      ≡ rows_of (elim found as (λ _. Option Entry) [
        | none ↦ none
        | some l ↦
            if elim l.status as (λ _. Bool) [ none ↦ false | some s ↦ agent_terminal s ]
            then none
            else some l
      ])
unresolved_rows none = refl
unresolved_rows (some e) = elim (Bool-cases (is_resolved e)) [
  | inl resolved ↦ rw resolved refl
  | inr open_row ↦ rw open_row refl
]

or_none : (o : Option Entry) → or_found o none ≡ o
or_none none = refl
or_none (some e) = refl

pending_of-awaiting :
    (id : String) (lines : List Line)
    → of_id id (pending_of (entries lines)) ≡ rows_of (awaiting agent_terminal id lines)
unfolding pending_of
pending_of-awaiting id lines =
    select-commute (has_id id) (λ a. not (is_resolved a)) (latest_status (entries lines) [])
    ∙ ap (select (λ a. not (is_resolved a))) (
        latest_status-exact id (entries lines) [] none refl
        ∙ ap rows_of (or_none (latest id (entries lines))))
    ∙ unresolved_rows (latest id (entries lines))

-- An accepted request lists, of each id, the latest row of the queue if its status is neither approved
-- nor denied, once, and nothing otherwise; and a compaction of the queue, with whatever retention and
-- at whatever second, changes nothing of that.
pub pending_exact :
    (c : Crypto) (window : ℕ) (approver_secret : String) (m : Signed) (now : ℕ) (cache : Cache)
    (files : Files) (retention_days compacted_at : ℕ) (id : String)
    → is_accepted (verify c window "" approver_secret m now cache).0 ≡ true
    → (of_id id (list_pending c window approver_secret (present files.live) m now cache).pending
        ≡ rows_of (awaiting agent_terminal id files.live))
      × (of_id id
            (list_pending c window approver_secret
              (present (compact_agent retention_days compacted_at false files).1.live)
              m
              now
              cache).pending
          ≡ rows_of (awaiting agent_terminal id files.live))
unfolding list_pending read_queue
pending_exact c window approver_secret m now cache files retention_days compacted_at id accepts = (
  rw accepts (pending_of-awaiting id files.live),
  rw accepts (
      pending_of-awaiting id (compact_agent retention_days compacted_at false files).1.live
      ∙ ap rows_of (compact_agent-awaiting retention_days compacted_at files id)),
)
