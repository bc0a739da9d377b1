-- ===== src/Claims/System.antt =====
-- Any number of approvals and operators over one claim document, interleaved request by request.
pub mod View
pub mod Wins
pub mod Exclusive
use suburban_soc.Base.{
  ℕ, zero, suc, ◌+◌, ◌-◌, ◌*◌, ◌^◌, ◌≤◌, ◌<◌, String, ◌≡◌, refl, sym, ap, ◌∙◌, ◌≢◌, ◌↔◌, ◌⊎◌, inl,
  inr, Bool, true, false, not, ◌&&◌, ◌||◌, Option, none, some, List, [], ◌∷◌, ◌++◌, map, arith, ltb,
  leb, Eq, ◌==◌, nat_eq, string_eq, beq_refl, ne_of_beq, eq_of_beq, All-mono, if◌then◌else◌,
  Bool-cases, Option-cases, length, select, any, count, All, length-append, select-append,
  any-append, count-append, count-le-length, All-append, All-of,
}
use suburban_soc.Claims.Elastic.{Elastic, Phase, released, Stored, Version, Status, Got, Update}
use suburban_soc.Claims.Client.{
  Pc, idle, reading, reclaiming, holding, finished, new_claim, after_create, after_get, after_put,
}

abbrev pub is_holding : Pc → Bool
is_holding holding = true
is_holding _ = false

-- A thread's place is replaced.
abbrev pub move : (ℕ → Pc) → ℕ → Pc → ℕ → Pc
move pc i p j = if i == j then p else pc j

module _ (E : Elastic) where
  open E use {State, doc, Create, Put, Post, Get}

  -- `wins` counts the claims that were won, and `releases` the requests by which Elasticsearch has
  -- written RELEASED, whatever became of their answers.
  pub record System : Type 0 where
    pub es : State
    pub pc : ℕ → Pc
    pub wins : ℕ
    pub releases : ℕ

  abbrev pub win : Pc → ℕ
  win p = if is_holding p then 1 else 0

  abbrev pub release_count : Phase → ℕ
  release_count released = 1
  release_count _ = 0

  -- Whether RELEASED was written between two documents: the second has it, in a version of its own.
  abbrev pub release_written : Option Stored → Option Stored → ℕ
  release_written before none = 0
  release_written none (some w) = release_count w.claim.phase
  release_written (some v) (some w) =
      if E.stamp v.version == E.stamp w.version then 0 else release_count w.claim.phase

  -- One request of one thread. `careful` says whether the operators keep to what the tool tells
  -- them: a claim is released by hand only if no execution under it is under way.
  pub data Step (careful : Bool) (s : System) : System → Type 0 where
    create :
        (i : ℕ) {approver : String} {now : ℕ} {r : Status} {es' : State}
        → s.pc i ≡ idle
        → Create (new_claim approver now) s.es r es'
        → Step careful s (record s {
          es = es';
          pc = move s.pc i (after_create r);
          wins = s.wins + win (after_create r);
        })
    read :
        (i : ℕ) {g : Got} {es' : State}
        → s.pc i ≡ reading
        → Get s.es g es'
        → Step careful s (record s { es = es'; pc = move s.pc i (after_get g) })
    reclaim :
        (i : ℕ) {v : Version} {approver : String} {now : ℕ} {r : Status} {es' : State}
        → s.pc i ≡ reclaiming v
        → Put v (new_claim approver now) s.es r es'
        → Step careful s (record s {
          es = es';
          pc = move s.pc i (after_put r);
          wins = s.wins + win (after_put r);
        })
    transition :
        (i : ℕ) {u : Update} {r : Status} {es' : State}
        → s.pc i ≡ holding
        → Post u s.es r es'
        → Step careful s (record s {
          es = es';
          pc = move s.pc i finished;
          releases = s.releases + release_written (doc s.es) (doc es');
        })
    abandon : (i : ℕ) → s.pc i ≡ holding → Step careful s (record s { pc = move s.pc i finished })
    operate :
        {u : Update} {r : Status} {es' : State}
        → (careful ≡ true → u.phase ≡ released → (i : ℕ) → is_holding (s.pc i) ≡ false)
        → Post u s.es r es'
        → Step careful s
            (record s { es = es'; releases = s.releases + release_written (doc s.es) (doc es') })

  pub data Reach (careful : Bool) (start : System) : System → Type 0 where
    here : Reach careful start start
    next : {s t : System} → Reach careful start s → Step careful s t → Reach careful start t
