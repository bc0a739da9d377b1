-- ===== src/Claims/System/Exclusive.antt =====
-- Who executes under a claim, over the steps of the system.
use suburban_soc.Base.{ℕ, String, ◌≡◌, refl, inl, inr, true, false, Option, arith}
use suburban_soc.Claims.Elastic.{
  Elastic, released, Version, Stored, Status, success, conflict, missing, failed, Got, found,
  absent, unread, Update, GetLaw,
}
use suburban_soc.Claims.Client.{
  Pc, reading, reclaiming, holding, lost, raised, finished, new_claim, after_create, after_get,
  after_put,
}
use suburban_soc.Claims.System.{
  is_holding, move, System, Step, create, read, reclaim, transition, abandon, operate, Reach, here,
  next,
}
use suburban_soc.Claims.System.View.{View}
use suburban_soc.Claims.System.Wins.{can_hold, Inv, IsInitial, Reach-Inv}

-- One approval executes at most, and only under a document that allows it.
record Exclusive (d : Option Stored) (pc : ℕ → Pc) : Type 0 where
  unique : (i j : ℕ) → is_holding (pc i) ≡ true → is_holding (pc j) ≡ true → i ≡ j
  live : (i : ℕ) → is_holding (pc i) ≡ true → can_hold d ≡ true

-- A thread that does not hold moves, and the document still allows what it allowed.
stay :
    (d d' : Option Stored) (pc : ℕ → Pc) (i : ℕ) (p : Pc)
    → Exclusive d pc
    → is_holding p ≡ false
    → (can_hold d ≡ true → can_hold d' ≡ true)
    → Exclusive d' (move pc i p)
stay d d' pc i p h out keep = record {
  unique = λ j k a b. ground (arith, h.unique j k);
  live = λ j a. ground (arith, h.live j, keep);
}

-- Nobody executes, and one thread begins to.
enter :
    (d d' : Option Stored) (pc : ℕ → Pc) (i : ℕ) (p : Pc)
    → Exclusive d pc
    → can_hold d ≡ false
    → can_hold d' ≡ true
    → Exclusive d' (move pc i p)
enter d d' pc i p h nobody allows = record {
  unique = λ j k a b. ground (arith, h.live j, h.live k);
  live = λ j a. allows;
}

-- The one that executes ends.
leave :
    (d d' : Option Stored) (pc : ℕ → Pc) (i : ℕ) (p : Pc)
    → Exclusive d pc
    → is_holding (pc i) ≡ true
    → is_holding p ≡ false
    → Exclusive d' (move pc i p)
leave d d' pc i p h held out = record {
  unique = λ j k a b. ground (arith, h.unique j i, h.unique k i);
  live = λ j a. absurd (ground (arith, h.unique j i));
}

-- An operator writes while nobody executes, or writes what still allows execution.
change :
    (d d' : Option Stored) (pc : ℕ → Pc)
    → Exclusive d pc
    → ((i : ℕ) → is_holding (pc i) ≡ true → can_hold d' ≡ true)
    → Exclusive d' pc
change d d' pc h keep = record { unique = h.unique; live = keep }

module _ (E : Elastic) where
  open E use {State, doc, clock, stamp}

  abbrev Ok : System E → Type 0
  Ok s = Exclusive (doc s.es) s.pc

  create-Ok :
      (s : System E) {es' : State} (i : ℕ) (approver : String) (now : ℕ) (r : Status)
      → E.Create (new_claim approver now) s.es r es'
      → Ok s
      → Exclusive (doc es') (move s.pc i (after_create r))
  unfolding after_create
  create-Ok s {es'} i approver now success c h =
      let law = E.create_law (new_claim approver now) s.es es' success c in
      enter (doc s.es) (doc es') s.pc i holding h (ground (arith, law.0))
        (ground (arith, law.1.now_holds))
  create-Ok s {es'} i approver now conflict c h =
      let law = E.create_law (new_claim approver now) s.es es' conflict c in
      stay (doc s.es) (doc es') s.pc i reading h refl (λ k. rw law.same_doc k)
  create-Ok s {es'} i approver now missing c h =
      let law = E.create_law (new_claim approver now) s.es es' missing c in
      stay (doc s.es) (doc es') s.pc i raised h refl (λ k. rw law.same_doc k)
  create-Ok s {es'} i approver now failed c h =
      elim (E.create_law (new_claim approver now) s.es es' failed c) [
        | inl same ↦ stay (doc s.es) (doc es') s.pc i raised h refl (λ k. rw same.same_doc k)
        | inr (before, wrote) ↦
            stay (doc s.es) (doc es') s.pc i raised h refl (λ k. ground (arith, wrote.now_holds))
      ]

  after_get-out : (g : Got) → is_holding (after_get g) ≡ false
  unfolding after_get
  after_get-out g = ground arith

  get-Ok :
      (s : System E) {es' : State} (i : ℕ) (g : Got)
      → E.Get s.es g es'
      → Ok s
      → Exclusive (doc es') (move s.pc i (after_get g))
  get-Ok s {es'} i g c h =
      stay (doc s.es) (doc es') s.pc i (after_get g) h (after_get-out g)
        (λ k. rw (same_of g (E.get_law s.es es' g c)) k)
    where
      same_of : (g : Got) → GetLaw doc clock stamp s.es es' g → doc es' ≡ doc s.es
      same_of (found v) law = law.0.same_doc
      same_of absent law = law.same_doc
      same_of unread law = law.same_doc

  reclaim-Ok :
      (s : System E) {es' : State} (i : ℕ) (v : Version) (approver : String) (now : ℕ) (r : Status)
      → s.pc i ≡ reclaiming v
      → E.Put v (new_claim approver now) s.es r es'
      → View E s.es s.pc
      → Ok s
      → Exclusive (doc es') (move s.pc i (after_put r))
  unfolding after_put
  reclaim-Ok s {es'} i v approver now success at c view h =
      let (old, was, wrote) = E.put_law v (new_claim approver now) s.es es' success c in
      enter (doc s.es) (doc es') s.pc i holding h
        (ground (arith, was, (view.seen i v at).released_then _ was refl))
        (ground (arith, wrote.now_holds))
  reclaim-Ok s {es'} i v approver now conflict at c view h =
      let law = E.put_law v (new_claim approver now) s.es es' conflict c in
      stay (doc s.es) (doc es') s.pc i lost h refl (λ k. rw law.same_doc k)
  reclaim-Ok s {es'} i v approver now missing at c view h =
      let law = E.put_law v (new_claim approver now) s.es es' missing c in
      stay (doc s.es) (doc es') s.pc i raised h refl (λ k. rw law.same_doc k)
  reclaim-Ok s {es'} i v approver now failed at c view h =
      elim (E.put_law v (new_claim approver now) s.es es' failed c) [
        | inl same ↦ stay (doc s.es) (doc es') s.pc i raised h refl (λ k. rw same.same_doc k)
        | inr (old, was, wrote) ↦
            stay (doc s.es) (doc es') s.pc i raised h refl (λ k. ground (arith, wrote.now_holds))
      ]

  -- A write of RELEASED apart, a transition leaves a document that allows execution.
  post-keeps :
      (es es' : State) (u : Update) (r : Status)
      → E.Post u es r es'
      → (u.phase ≡ released → ⊥)
      → can_hold (doc es) ≡ true
      → can_hold (doc es') ≡ true
  post-keeps es es' u success c other k =
      let (old, was, met, wrote) = E.post_law u es es' success c in
      ground (arith, was, wrote.now_holds, other)
  post-keeps es es' u conflict c other k = rw (E.post_law u es es' conflict c).same_doc k
  post-keeps es es' u missing c other k = rw (E.post_law u es es' missing c).same_doc k
  post-keeps es es' u failed c other k = elim (E.post_law u es es' failed c) [
    | inl same ↦ rw same.same_doc k
    | inr (old, was, met, wrote) ↦ ground (arith, was, wrote.now_holds, other)
  ]

  operate-Ok :
      (s : System E) {es' : State} (u : Update) (r : Status)
      → (u.phase ≡ released → (i : ℕ) → is_holding (s.pc i) ≡ false)
      → E.Post u s.es r es'
      → Ok s
      → Exclusive (doc es') s.pc
  operate-Ok s {es'} u r quiet c h = change (doc s.es) (doc es') s.pc h (λ i held.
      post-keeps s.es es' u r c (λ e. absurd (ground (arith, quiet e i, held))) (h.live i held))

  Step-Ok : {s t : System E} → Step E true s t → Inv E s → Ok s → Ok t
  Step-Ok {s = s} (create i {approver} {now} {r} at c) inv h = create-Ok s i approver now r c h
  Step-Ok {s = s} (read i {g} at c) inv h = get-Ok s i g c h
  Step-Ok {s = s} (reclaim i {v} {approver} {now} {r} at c) inv h =
      reclaim-Ok s i v approver now r at c inv.view h
  Step-Ok {s = s} (transition i {es' = es'} at c) inv h =
      leave (doc s.es) (doc es') s.pc i finished h (rw at refl) refl
  Step-Ok {s = s} (abandon i at) inv h =
      leave (doc s.es) (doc s.es) s.pc i finished h (rw at refl) refl
  Step-Ok {s = s} (operate {u} {r} allowed c) inv h = operate-Ok s u r (allowed refl) c h

  initial-Ok : {s : System E} → IsInitial E s → Ok s
  initial-Ok h = record {
    unique = λ i j a b. absurd (ground (arith, h.all_idle i));
    live = λ i a. absurd (ground (arith, h.all_idle i));
  }

  Reach-Ok : {s t : System E} → IsInitial E s → Reach E true s t → Ok t
  Reach-Ok start here = initial-Ok start
  Reach-Ok start (next r step) = Step-Ok step (Reach-Inv E start r) (Reach-Ok start r)

  -- From a state with no claim document and no approval under way: if operators release a claim by
  -- hand only while no execution under it is under way, two
  -- approvals of one alert never execute at the same time, whatever the interleaving and whichever
  -- answers are lost.
  pub mutual_exclusion :
      {s t : System E} (i j : ℕ)
      → IsInitial E s
      → Reach E true s t
      → t.pc i ≡ holding
      → t.pc j ≡ holding
      → i ≡ j
  mutual_exclusion i j start r a b = (Reach-Ok start r).unique i j (rw a refl) (rw b refl)
