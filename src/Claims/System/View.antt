-- ===== src/Claims/System/View.antt =====
-- What the versions say in every reachable state: which document a read version belongs to.
use suburban_soc.Base.{
  ℕ, ◌≤◌, ◌≡◌, sym, ◌∙◌, inl, inr, some, arith, ◌==◌, nat_eq, string_eq, Bool-cases,
}
use suburban_soc.Claims.Elastic.{Elastic, released, Claim, Version, Stored, Same, Wrote}
use suburban_soc.Claims.Client.{Pc, reclaiming}
use suburban_soc.Claims.System.{move}

module _ (E : Elastic) where
  open E use {State, doc, clock, stamp}

  -- A version that a thread has read belongs to a released document, now and later.
  pub record Seen (es : State) (v : Version) : Type 0 where
    pub known : stamp v ≤ clock es
    pub released_then : (w : Stored) → doc es ≡ some w → w.version ≡ v → w.claim.phase ≡ released

  pub record View (es : State) (pc : ℕ → Pc) : Type 0 where
    pub current : (w : Stored) → doc es ≡ some w → stamp w.version ≤ clock es
    pub seen : (i : ℕ) (v : Version) → pc i ≡ reclaiming v → Seen es v

  pub same-View :
      {es es' : State} {pc : ℕ → Pc} → Same doc clock stamp es es' → View es pc → View es' pc
  same-View e h = record {
    current = λ w q. ground (arith, h.current w, e.same_doc, e.same_clock);
    seen = λ i v at. record {
      known = omega (arith, (h.seen i v at).known, e.same_clock);
      released_then = λ w q. (h.seen i v at).released_then w (sym e.same_doc ∙ q);
    };
  }

  pub wrote-View :
      {es es' : State} {pc : ℕ → Pc} {c : Claim}
      → Wrote doc clock stamp es es' c
      → View es pc
      → View es' pc
  wrote-View e h = record {
    current = λ w q. ground (arith, e.now_holds, e.known);
    seen = λ i v at. record {
      known = omega (arith, (h.seen i v at).known, e.fresh, e.known);
      released_then =
          λ w q same. absurd (ground (arith, e.now_holds, e.fresh, (h.seen i v at).known));
    };
  }

  pub move-View :
      {es : State} {pc : ℕ → Pc} (i : ℕ) (p : Pc)
      → ((v : Version) → p ≡ reclaiming v → Seen es v)
      → View es pc
      → View es (move pc i p)
  move-View i p new h = record {
    current = h.current;
    seen = λ j v at. elim (Bool-cases (i == j)) [
      | inl here_ ↦ new v (rw here_ at at)
      | inr there ↦ h.seen j v (rw there at at)
    ];
  }
