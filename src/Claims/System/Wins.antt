-- ===== src/Claims/System/Wins.antt =====
-- How often a claim is won: what the versions and the counts say in every reachable state.
use suburban_soc.Base.{
  ℕ, ◌+◌, ◌≤◌, String, ◌≡◌, refl, ◌∙◌, inl, inr, Bool, true, false, Option, none, some, arith,
  nat_eq, string_eq,
}
use suburban_soc.Claims.Elastic.{
  Elastic, claimed, released, resolved, Version, Stored, Status, success, conflict, missing, failed,
  Got, found, absent, unread, Update,
}
use suburban_soc.Claims.Client.{
  Pc, idle, reading, reclaiming, holding, lost, raised, finished, new_claim, after_create,
  after_get, after_put,
}
use suburban_soc.Claims.System.View.{Seen, View, same-View, wrote-View, move-View}
use suburban_soc.Claims.System.{
  move, win, release_written, System, Step, create, read, reclaim, transition, abandon, operate,
  Reach, here, next,
}

-- The wins that a document leaves room for: none before it exists, as many as releases while it is
-- released, and one more otherwise.
abbrev pub limit : Option Stored → ℕ → ℕ
limit none releases = 0
limit (some v) releases = elim v.claim.phase [
  | claimed ↦ releases + 1
  | released ↦ releases
  | resolved ↦ releases + 1
]

-- A claim can be executed under only while its document is there and is not released.
abbrev pub can_hold : Option Stored → Bool
can_hold none = false
can_hold (some v) = elim v.claim.phase [ claimed ↦ true | released ↦ false | resolved ↦ true ]

limit-le :
    (d : Option Stored) (releases : ℕ) {wins : ℕ} → wins ≤ limit d releases → wins ≤ releases + 1
limit-le d releases h = ground arith

module _ (E : Elastic) where
  open E use {State, doc, clock, stamp}

  -- The counts agree with the document.
  pub record Inv (s : System E) : Type 0 where
    pub view : View E s.es s.pc
    pub bound : s.wins ≤ limit (doc s.es) s.releases

  create-Inv :
      {s : System E} {es' : State} (i : ℕ) (approver : String) (now : ℕ) (r : Status)
      → E.Create (new_claim approver now) s.es r es'
      → Inv s
      → Inv (record s {
        es = es';
        pc = move s.pc i (after_create r);
        wins = s.wins + win E (after_create r);
      })
  unfolding after_create
  create-Inv {s} {es'} i approver now success c h =
      let law = E.create_law (new_claim approver now) s.es es' success c in
      record {
        view = move-View E i holding (λ v e. absurd (cc)) (wrote-View E law.1 h.view);
        bound = ground (arith, law.0, law.1.now_holds, h.bound);
      }
  create-Inv {s} {es'} i approver now conflict c h =
      let law = E.create_law (new_claim approver now) s.es es' conflict c in
      record {
        view = move-View E i reading (λ v e. absurd (cc)) (same-View E law h.view);
        bound = ground (arith, law.same_doc, h.bound);
      }
  create-Inv {s} {es'} i approver now missing c h =
      let law = E.create_law (new_claim approver now) s.es es' missing c in
      record {
        view = move-View E i raised (λ v e. absurd (cc)) (same-View E law h.view);
        bound = ground (arith, law.same_doc, h.bound);
      }
  create-Inv {s} {es'} i approver now failed c h =
      elim (E.create_law (new_claim approver now) s.es es' failed c) [
        | inl same ↦ record {
          view = move-View E i raised (λ v e. absurd (cc)) (same-View E same h.view);
          bound = ground (arith, same.same_doc, h.bound);
        }
        | inr (before, wrote) ↦ record {
          view = move-View E i raised (λ v e. absurd (cc)) (wrote-View E wrote h.view);
          bound = ground (arith, before, wrote.now_holds, h.bound);
        }
      ]

  -- What a read has found released is seen.
  found-Seen :
      {es : State} {pc : ℕ → Pc} (w : Stored) (v : Version)
      → View E es pc
      → doc es ≡ some w
      → after_get (found w) ≡ reclaiming v
      → Seen E es v
  unfolding after_get
  found-Seen w v h is e = record {
    known = ground (arith, h.current w is, e);
    released_then = λ w' q same. ground (arith, is, q, e);
  }

  get-Inv :
      {s : System E} {es' : State} (i : ℕ) (g : Got)
      → E.Get s.es g es'
      → Inv s
      → Inv (record s { es = es'; pc = move s.pc i (after_get g) })
  unfolding after_get
  get-Inv {s} {es'} i absent c h =
      let law = E.get_law s.es es' absent c in
      record {
        view = move-View E i raised (λ v e. absurd (cc)) (same-View E law h.view);
        bound = ground (arith, law.same_doc, h.bound);
      }
  get-Inv {s} {es'} i unread c h =
      let law = E.get_law s.es es' unread c in
      record {
        view = move-View E i raised (λ v e. absurd (cc)) (same-View E law h.view);
        bound = ground (arith, law.same_doc, h.bound);
      }
  get-Inv {s} {es'} i (found w) c h =
      let law = E.get_law s.es es' (found w) c in
      let before = same-View E law.0 h.view in
      record {
        view =
            move-View E i (after_get (found w))
              (λ v e. found-Seen w v before (law.0.same_doc ∙ law.1) e) before;
        bound = ground (arith, law.0.same_doc, h.bound);
      }

  reclaim-Inv :
      {s : System E} {es' : State} (i : ℕ) (v : Version) (approver : String) (now : ℕ) (r : Status)
      → s.pc i ≡ reclaiming v
      → E.Put v (new_claim approver now) s.es r es'
      → Inv s
      → Inv (record s {
        es = es';
        pc = move s.pc i (after_put r);
        wins = s.wins + win E (after_put r);
      })
  unfolding after_put
  reclaim-Inv {s} {es'} i v approver now success at c h =
      let (old, was, wrote) = E.put_law v (new_claim approver now) s.es es' success c in
      record {
        view = move-View E i holding (λ v e. absurd (cc)) (wrote-View E wrote h.view);
        bound =
            ground
              (arith, was, wrote.now_holds, h.bound, (h.view.seen i v at).released_then _ was refl);
      }
  reclaim-Inv {s} {es'} i v approver now conflict at c h =
      let law = E.put_law v (new_claim approver now) s.es es' conflict c in
      record {
        view = move-View E i lost (λ v e. absurd (cc)) (same-View E law h.view);
        bound = ground (arith, law.same_doc, h.bound);
      }
  reclaim-Inv {s} {es'} i v approver now missing at c h =
      let law = E.put_law v (new_claim approver now) s.es es' missing c in
      record {
        view = move-View E i raised (λ v e. absurd (cc)) (same-View E law h.view);
        bound = ground (arith, law.same_doc, h.bound);
      }
  reclaim-Inv {s} {es'} i v approver now failed at c h =
      elim (E.put_law v (new_claim approver now) s.es es' failed c) [
        | inl same ↦ record {
          view = move-View E i raised (λ v e. absurd (cc)) (same-View E same h.view);
          bound = ground (arith, same.same_doc, h.bound);
        }
        | inr (old, was, wrote) ↦ record {
          view = move-View E i raised (λ v e. absurd (cc)) (wrote-View E wrote h.view);
          bound =
              ground (
                arith,
                was,
                wrote.now_holds,
                h.bound,
                (h.view.seen i v at).released_then _ was refl,
              );
        }
      ]

  -- A transition, by an execution that ends or by an operator.
  post-Inv :
      {s : System E} {es' : State} (pc' : ℕ → Pc) (u : Update) (r : Status)
      → ((es : State) → View E es s.pc → View E es pc')
      → E.Post u s.es r es'
      → Inv s
      → Inv (record s {
        es = es';
        pc = pc';
        releases = s.releases + release_written E (doc s.es) (doc es');
      })
  post-Inv {s} {es'} pc' u success moved c h =
      let (old, was, met, wrote) = E.post_law u s.es es' success c in
      record {
        view = moved es' (wrote-View E wrote h.view);
        bound = ground (arith, was, wrote.now_holds, h.bound, wrote.fresh, h.view.current old was);
      }
  post-Inv {s} {es'} pc' u conflict moved c h =
      let law = E.post_law u s.es es' conflict c in
      record {
        view = moved es' (same-View E law h.view);
        bound = ground (arith, law.same_doc, h.bound);
      }
  post-Inv {s} {es'} pc' u missing moved c h =
      let law = E.post_law u s.es es' missing c in
      record {
        view = moved es' (same-View E law h.view);
        bound = ground (arith, law.same_doc, h.bound);
      }
  post-Inv {s} {es'} pc' u failed moved c h = elim (E.post_law u s.es es' failed c) [
    | inl same ↦ record {
      view = moved es' (same-View E same h.view);
      bound = ground (arith, same.same_doc, h.bound);
    }
    | inr (old, was, met, wrote) ↦ record {
      view = moved es' (wrote-View E wrote h.view);
      bound = ground (arith, was, wrote.now_holds, h.bound, wrote.fresh, h.view.current old was);
    }
  ]

  pub Step-Inv : {careful : Bool} {s t : System E} → Step E careful s t → Inv s → Inv t
  Step-Inv (create i {approver} {now} {r} at c) h = create-Inv i approver now r c h
  Step-Inv (read i {g} at c) h = get-Inv i g c h
  Step-Inv (reclaim i {v} {approver} {now} {r} at c) h = reclaim-Inv i v approver now r at c h
  Step-Inv {s = s} (transition i {u} {r} at c) h =
      post-Inv (move s.pc i finished) u r
        (λ es view. move-View E i finished (λ v e. absurd (cc)) view) c h
  Step-Inv (abandon i at) h = record {
    view = move-View E i finished (λ v e. absurd (cc)) h.view;
    bound = h.bound;
  }
  Step-Inv {s = s} (operate {u} {r} allowed c) h = post-Inv s.pc u r (λ es view. view) c h

  -- Before any request: no document, and no approval under way.
  pub record IsInitial (s : System E) : Type 0 where
    pub no_doc : doc s.es ≡ none
    pub all_idle : (i : ℕ) → s.pc i ≡ idle
    pub no_wins : s.wins ≡ 0

  pub initial-Inv : {s : System E} → IsInitial s → Inv s
  initial-Inv h = record {
    view = record {
      current = λ w q. absurd (ground (arith, h.no_doc));
      seen = λ i v at. absurd (ground (arith, h.all_idle i));
    };
    bound = omega (arith, h.no_wins);
  }

  pub Reach-Inv : {careful : Bool} {s t : System E} → IsInitial s → Reach E careful s t → Inv t
  Reach-Inv start here = initial-Inv start
  Reach-Inv start (next r step) = Step-Inv step (Reach-Inv start r)

  -- From a state with no claim document and no approval under way: however the approvals and the
  -- operators interleave, and whichever answers are lost, at every moment the claim has been won at
  -- most once more often than Elasticsearch has written RELEASED. Requests that wrote nothing are not
  -- counted, and one whose answer was lost is counted if it was written.
  pub wins-le-releases :
      {careful : Bool} {s t : System E}
      → IsInitial s
      → Reach E careful s t
      → t.wins ≤ t.releases + 1
  wins-le-releases {t = t} start r = limit-le (doc t.es) t.releases (Reach-Inv start r).bound
