-- ===== src/Prune/Intel/Apart.antt =====
-- What `compact` makes of the results of its two indices.
use suburban_soc.Base.{
  ℕ, suc, String, ◌≡◌, refl, Bool, true, false, not, ◌&&◌, ◌||◌, Option, none, some, List, [], ◌∷◌,
  ◌++◌, ltb, ◌==◌, nat_eq, string_eq, if◌then◌else◌,
}
use mathlib.Core.List.{append-nil}
use suburban_soc.Prune.{
  too_many, no_task, several, value_error, Reason, unclean, several, runtime, value_error, Result,
  ok, raised, Clause, match_all, Request, count_docs, delete_docs, Run, ◌>>=◌, pure, throw, send,
  unless, days, no_integer, Report, Caught, Caught->>=, checked-Caught,
}
use suburban_soc.Prune.Wait.{Setting, patience, wait_for_task}
use suburban_soc.Prune.Wait.Caught.{wait_for_task-Caught}
use suburban_soc.Prune.Intel.{
  Index, or_zero, build_query, within_blast_radius, task_of, trusted, deletion, delete_matched,
  compact_index, noted, over_indices, concluded, reraised, compact,
}

Caught-if {ℓ} :
    {A : Type ℓ} (b : Bool) (m k : Run A) → Caught m.1 → Caught k.1 → Caught (if b then m else k).1
Caught-if true m k hm hk = hm
Caught-if false m k hm hk = hk

unless-Caught : (b : Bool) (why : Reason) → Caught (unless b (runtime why)).1
unless-Caught true why = refl
unless-Caught false why = tt

task_of-Caught : (id : Option String) → Caught (task_of id).1
task_of-Caught none = refl
task_of-Caught (some id) = Caught-if (id == "") (throw (runtime no_task)) (pure id) refl tt

trusted-Caught : (r : Report) → Caught (trusted r).1
unfolding trusted
trusted-Caught r =
    Caught-if (ltb 0 r.failures || r.timed_out) (throw (runtime unclean)) (pure r.deleted) refl tt

module _ (timeout interval : Setting) (i : Index) (q : List Clause) where
  deletion-Caught : Caught (deletion (patience timeout interval) i q).1
  unfolding deletion
  deletion-Caught =
      Caught->>= (send (delete_docs i.name q) (i.started q)) _ (checked-Caught (i.started q)) λ id.
        Caught->>= (task_of id) _ (task_of-Caught id) λ task.
          Caught->>= ([], wait_for_task (patience timeout interval) i.polls) _
            (wait_for_task-Caught timeout interval i.polls) trusted-Caught

  within-Caught : (m : ℕ) → Caught (within_blast_radius i m).1
  unfolding within_blast_radius
  within-Caught m =
      Caught->>= (send (count_docs i.name (match_all ∷ [])) (i.counted (match_all ∷ []))) _
        (checked-Caught (i.counted (match_all ∷ []))) (λ total. unless-Caught _ too_many)

  delete_matched-Caught :
      (m : ℕ) (force : Bool) → Caught (delete_matched (patience timeout interval) i q m force).1
  unfolding delete_matched
  delete_matched-Caught m force =
      Caught-if (ltb 0 m && not force) _ _
        (Caught->>= (within_blast_radius i m) _ (within-Caught m) (λ u. deletion-Caught))
        deletion-Caught

  after_count-Caught :
      (m : ℕ) (dry_run force : Bool)
      → Caught
          (if dry_run then pure m else delete_matched (patience timeout interval) i q m force).1
  after_count-Caught m dry_run force =
      Caught-if dry_run (pure m) _ tt (delete_matched-Caught m force)

compact_index-Caught :
    (timeout interval : Setting) (i : Index) (field : String) (n : ℕ) (dry_run force : Bool)
    → Caught (compact_index (patience timeout interval) i field (days (suc n)) dry_run force).1
unfolding compact_index
compact_index-Caught timeout interval i field n dry_run force =
    let q = build_query field (suc n) in
    Caught->>= (send (count_docs i.name q) (i.counted q)) _ (checked-Caught (i.counted q))
      (λ m. after_count-Caught timeout interval i q (or_zero m) dry_run force)

-- The result of the run from the results of the indices.
abbrev pub joined : (a b : String) → Result ℕ → Result ℕ → Result (List (String × ℕ))
joined a b (ok n) (ok m) = ok ((a, n) ∷ (b, m) ∷ [])
joined a b (ok n) (raised e) = raised (reraised e)
joined a b (raised e) (ok m) = raised (reraised e)
joined a b (raised e) (raised f) = raised (runtime several)

module _ (a b : String) (log log' : List Request) where
  -- The loop and what follows it, over the results of the two indices.
  two_results :
      (r r' : Result ℕ)
      → Caught r
      → Caught r'
      → (((log, noted a r ([], [])) >>= λ t. ((log', noted b r' t) >>= λ t'. pure t'))
          >>= concluded)
        ≡ (log ++ log', joined a b r r')
  two_results (ok n) (ok m) h k = simp (append-nil)
  two_results (ok n) (raised e) h k = rw k (simp (append-nil))
  two_results (raised e) (ok m) h k = rw h (simp (append-nil))
  two_results (raised e) (raised f) h k = rw (h, k) (simp (append-nil))

-- `compact` runs both indices, whatever becomes of the first: the requests of the one stand before
-- those of the other. It returns both counts if both have one, raises the exception of the only
-- index that failed, or a TypeError where that is the JSON error of requests, and a RuntimeError if
-- both did; a retention that is no positive integer is
-- refused before any request. The settings are finite numbers, if they are numbers.
pub compact_apart :
    (timeout interval : Setting) (a b : Index) (n : ℕ) (dry_run force : Bool)
    → let c = patience timeout interval in
      let r = compact_index c a "@timestamp" (days (suc n)) dry_run force in
      let r' = compact_index c b "@timestamp" (days (suc n)) dry_run force in
      (compact c a b (days (suc n)) dry_run force ≡ (r.0 ++ r'.0, joined a.name b.name r.1 r'.1))
      × (compact c a b (days 0) dry_run force ≡ ([], raised value_error))
      × (compact c a b no_integer dry_run force ≡ ([], raised value_error))
unfolding compact over_indices
compact_apart timeout interval a b n dry_run force =
    let c = patience timeout interval in
    let r = compact_index c a "@timestamp" (days (suc n)) dry_run force in
    let r' = compact_index c b "@timestamp" (days (suc n)) dry_run force in
    (
      two_results a.name b.name r.0 r'.0 r.1 r'.1
          (compact_index-Caught timeout interval a "@timestamp" n dry_run force)
          (compact_index-Caught timeout interval b "@timestamp" n dry_run force),
      refl,
      refl,
    )
