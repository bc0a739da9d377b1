-- ===== src/Prune/Intel/Guarded.antt =====
-- When `compact_index` sends a deletion, and what it may report.
use suburban_soc.Base.{
  ℕ, zero, suc, ◌*◌, ◌≤◌, ◌<◌, String, ◌≡◌, refl, sym, ◌∙◌, ◌⊎◌, inl, inr, Bool, true, false, ◌||◌,
  Option, List, [], ◌∷◌, arith, ltb, leb, nat_eq, string_eq, if◌then◌else◌, Bool-cases, length, any,
  count, any-append,
}
use suburban_soc.Prune.{
  too_many, Raised, runtime, Result, ok, raised, checked, Clause, match_all, count_docs, is_delete,
  Run, ◌>>=◌, pure, send, unless, Days, days, no_integer, Patience,
}
use suburban_soc.Prune.Intel.{
  Index, or_zero, build_query, over_blast_radius, within_blast_radius, deletion, delete_matched,
  compact_index,
}

abbrev pub Deletes {ℓ} : {A : Type ℓ} → Run A → Type 0
Deletes m = any is_delete m.0 ≡ true

or-true : (a b : Bool) → (a || b) ≡ true → (a ≡ true) ⊎ (b ≡ true)
or-true true b h = inl refl
or-true false b h = inr h

-- A deletion is in the first part of a run or, if that has a value, in the rest.
Deletes->>= {ℓ κ} :
    {A : Type ℓ} {B : Type κ} (m : Run B) (f : B → Run A)
    → Deletes (m >>= f)
    → Deletes m ⊎ ((b : B) × (m.1 ≡ ok b) × Deletes (f b))
Deletes->>= (log, ok b) f h = elim (or-true _ _ (sym (any-append is_delete log (f b).0) ∙ h)) [
  | inl first ↦ inl first
  | inr second ↦ inr (b, refl, second)
]
Deletes->>= (log, raised e) f h = inl h

-- The documents of an index by their ages in days, and the counts that it answers.
pub record Counts (i : Index) (date_field : String) (ages : List ℕ) : Type 0 where
  pub matched :
      (n : ℕ) (c : Option ℕ)
      → checked (i.counted (build_query date_field n)) ≡ ok c
      → or_zero c ≡ count (ltb n) ages
  pub total : (c : Option ℕ) → checked (i.counted (match_all ∷ [])) ≡ ok c → or_zero c ≡ length ages

-- What a deletion may take without `force`.
abbrev pub Few : (old total : ℕ) → Type 0
Few old total = (total < 20) ⊎ (2 * old ≤ total)

Few-of_test : (m t : ℕ) → over_blast_radius m t ≡ false → Few m t
unfolding over_blast_radius
Few-of_test m t h = elim (Bool-cases (leb 20 t)) [
  | inl many ↦ inr (ground arith)
  | inr few ↦ inl (ground arith)
]

-- The check sends no deletion, and passes only if its test does.
within_passes :
    (i : Index) (m : ℕ) (u : Unit {0})
    → (within_blast_radius i m).1 ≡ ok u
    → (t : Option ℕ) × (checked (i.counted (match_all ∷ [])) ≡ ok t)
      × (over_blast_radius m (or_zero t) ≡ false)
unfolding within_blast_radius
within_passes i m u h = passes (checked (i.counted (match_all ∷ []))) h
  where
    passes :
        (r : Result (Option ℕ))
        → (((count_docs i.name (match_all ∷ []) ∷ [], r)) >>= λ t.
            unless (over_blast_radius m (or_zero t)) (runtime too_many)).1
          ≡ ok u
        → (t : Option ℕ) × (r ≡ ok t) × (over_blast_radius m (or_zero t) ≡ false)
    passes (ok t) h = (t, refl, ground arith)
    passes (raised e) h = cc

sends_one_count {ℓ κ} :
    {A : Type ℓ} {B : Type κ} (name : String) (q : List Clause) (r : Result B) (f : B → Run A)
    → ((b : B) → any is_delete (f b).0 ≡ false)
    → any is_delete (((count_docs name q ∷ []), r) >>= f).0 ≡ false
sends_one_count name q (ok b) f h = h b
sends_one_count name q (raised e) f h = refl

unless_no_delete : (b : Bool) (e : Raised) → any is_delete (unless b e).0 ≡ false
unless_no_delete true e = refl
unless_no_delete false e = refl

within_no_delete : (i : Index) (m : ℕ) → any is_delete (within_blast_radius i m).0 ≡ false
unfolding within_blast_radius
within_no_delete i m =
    sends_one_count i.name (match_all ∷ []) (checked (i.counted (match_all ∷ []))) _
      (λ t. unless_no_delete (over_blast_radius m (or_zero t)) (runtime too_many))

module _ (c : Patience) (i : Index) (date_field : String) (ages : List ℕ)
    (law : Counts i date_field ages) where
  delete_matched-Few :
      (q : List Clause) (m : ℕ) (force : Bool)
      → Deletes (delete_matched c i q m force)
      → (force ≡ true) ⊎ Few m (length ages)
  unfolding delete_matched
  delete_matched-Few q m true h = inl refl
  delete_matched-Few q zero false h = inr (inr (omega arith))
  delete_matched-Few q (suc m) false h =
      let some_matched : ltb 0 (suc m) ≡ true = ground arith in
      elim (Deletes->>= (within_blast_radius i (suc m)) (λ _. deletion c i q)
        (rw some_matched at h)) [
          | inl first ↦ cc (within_no_delete i (suc m))
          | inr (u, passed, _) ↦
              let (t, answered, test) = within_passes i (suc m) u passed in
              inr (rw (law.total t answered) at (Few-of_test (suc m) (or_zero t) test))
        ]

  after_count :
      (q : List Clause) (m : ℕ) (dry_run force : Bool)
      → Deletes (if dry_run then pure m else delete_matched c i q m force)
      → (dry_run ≡ false) × ((force ≡ true) ⊎ Few m (length ages))
  after_count q m true force h = cc
  after_count q m false force h = (refl, delete_matched-Few q m force h)

  -- `compact_index` sends a deletion only if this is no dry run and, unless `force` is set, what it
  -- would delete is at most half of the documents of the index, or the index has fewer than 20.
  pub delete_guarded :
      (retention : Days) (dry_run force : Bool)
      → Deletes (compact_index c i date_field retention dry_run force)
      → (n : ℕ) × (retention ≡ days n)
        × (0 < n)
        × (dry_run ≡ false)
        × ((force ≡ true) ⊎ Few (count (ltb n) ages) (length ages))
  unfolding compact_index
  delete_guarded no_integer dry_run force h = cc
  delete_guarded (days zero) dry_run force h = cc
  delete_guarded (days (suc n)) dry_run force h =
      let q = build_query date_field (suc n) in
      elim (Deletes->>= (send (count_docs i.name q) (i.counted q)) _ h) [
        | inl first ↦ cc
        | inr (m, answered, rest) ↦
            let (live, few) = after_count q (or_zero m) dry_run force rest in
            (suc n, refl, omega arith, live, rw (law.matched (suc n) m answered) at few)
      ]
