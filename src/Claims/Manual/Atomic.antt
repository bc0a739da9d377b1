-- ===== src/Claims/Manual/Atomic.antt =====
-- When the tool writes to a claim, and onto which version of it.
use suburban_soc.Base.{
  ℕ, ◌+◌, ◌*◌, String, ◌≡◌, ap, ◌∙◌, ◌⊎◌, inl, inr, Bool, true, false, ◌&&◌, ◌||◌, none, some,
  arith, leb, nat_eq, string_eq, Option-cases,
}
use mathlib.Core.Path.{subst}
use suburban_soc.Claims.Elastic.{
  Elastic, Phase, claimed, Stored, Status, success, conflict, missing, failed, Update, Met, Merged,
  UpdateLaw,
}
use suburban_soc.Claims.Client.{transition_request}
use suburban_soc.Claims.Manual.{
  Args, Shown, shown, is_young, cmd_resolve, of_phase, aged, transitioned, send,
}

abbrev pub is_claimed : Phase → Bool
is_claimed claimed = true
is_claimed _ = false

module _ (identity : String) (now : ℕ) where
  -- What has to hold before the tool writes.
  abbrev pub is_stuck : Args → Shown → Bool
  is_stuck args c =
      is_claimed c.phase
      && ((elim c.timestamp [
        | none ↦ false
        | some t ↦ leb (t + args.max_age_min * 60) now || args.force
      ])
          && args.confirmed)

  -- What an update that is sent has shown.
  pub record Guarded (args : Args) (c : Shown) (u : Update) : Type 0 where
    pub seq_no : ℕ
    pub primary_term : ℕ
    pub stuck : is_stuck args c ≡ true
    pub has_seq : c.seq_no ≡ some seq_no
    pub has_term : c.primary_term ≡ some primary_term
    pub conditional : u.only_if ≡ some (record { seq_no = seq_no; primary_term = primary_term })

  sent-Guarded :
      (args : Args) (c : Shown) (status : Status) (u : Update)
      → (cmd_resolve identity now args (shown c) status).sent ≡ some u
      → Guarded args c u
  unfolding cmd_resolve of_phase aged is_young transitioned send transition_request
  sent-Guarded args c status u h = elim (Option-cases c.seq_no) [
    | inl missing_seq ↦ absurd (ground (arith, h, missing_seq))
    | inr (n, seq) ↦ elim (Option-cases c.primary_term) [
      | inl missing_term ↦ absurd (ground (arith, h, missing_term))
      | inr (t, term) ↦ record {
        seq_no = n;
        primary_term = t;
        stuck = ground (arith, h, seq, term);
        has_seq = seq;
        has_term = term;
        conditional = ground (arith, h, seq, term);
      }
    ]
  ]

module _ (E : Elastic) where
  open E use {State, doc, Post}

  -- The document still was at the version that the tool read.
  abbrev pub Onto : Shown → State → Type 0
  Onto c s =
      (old : Stored) × (doc s ≡ some old)
      × (c.seq_no ≡ some old.version.seq_no)
      × (c.primary_term ≡ some old.version.primary_term)

  -- What an update has done, by its answer.
  abbrev pub Effect : Shown → State → State → Status → Type 0
  Effect c s s' success = Onto c s
  Effect c s s' conflict = doc s' ≡ doc s
  Effect c s s' missing = doc s' ≡ doc s
  Effect c s s' failed = (doc s' ≡ doc s) ⊎ Onto c s

  Merged-Onto :
      (identity : String) (now : ℕ) (args : Args) (c : Shown) (u : Update) (s s' : State)
      → Guarded identity now args c u
      → Merged doc E.clock E.stamp s s' u
      → Onto c s
  Merged-Onto identity now args c u s s' g (old, at, met, _) =
      let current = subst (λ o. Met doc E.clock E.stamp s s' o old.version) g.conditional met in
      (
        old,
        at,
        g.has_seq ∙ ap (λ v. some v.seq_no) current,
        g.has_term ∙ ap (λ v. some v.primary_term) current,
      )

  Guarded-Effect :
      (identity : String) (now : ℕ) (args : Args) (c : Shown) (u : Update) (s s' : State)
      → Guarded identity now args c u
      → (r : Status) → UpdateLaw doc E.clock E.stamp s s' r u
      → Effect c s s' r
  Guarded-Effect identity now args c u s s' g success law =
      Merged-Onto identity now args c u s s' g law
  Guarded-Effect identity now args c u s s' g conflict law = law.same_doc
  Guarded-Effect identity now args c u s s' g missing law = law.same_doc
  Guarded-Effect identity now args c u s s' g failed (inl same) = inl same.same_doc
  Guarded-Effect identity now args c u s s' g failed (inr merged) =
      inr (Merged-Onto identity now args c u s s' g merged)

  -- The tool never writes over a claim that it has not shown. If it sends an update, whatever the
  -- answer, then the claim that it read was CLAIMED, its timestamp at least `--max-age-min` minutes
  -- ago or `--force` given, and the update confirmed with `--yes`. If the answer is success, then the
  -- document still was at the version that the tool read, so no write in between is lost. On a
  -- conflict or a missing document nothing has changed, and where the answer is an error or is lost,
  -- nothing has changed or the document was at that version.
  pub cmd_resolve-atomic :
      (identity : String) (now : ℕ) (args : Args) (c : Shown) (status r : Status) (u : Update)
      (s s' : State)
      → (cmd_resolve identity now args (shown c) status).sent ≡ some u
      → Post u s r s'
      → (is_stuck identity now args c ≡ true) × Effect c s s' r
  cmd_resolve-atomic identity now args c status r u s s' h posted =
      let g = sent-Guarded identity now args c status u h in
      (g.stuck, Guarded-Effect identity now args c u s s' g r (E.post_law u s s' r posted))
