-- ===== src/Prune/Checkpoints/Survives.antt =====
-- Which documents a compaction of the checkpoints can delete.
use suburban_soc.Base.{
  ℕ, zero, suc, ◌<◌, String, ◌≡◌, refl, ◌≢◌, Bool, true, false, not, ◌&&◌, ◌||◌, Option, none, some,
  List, [], ◌∷◌, arith, ltb, ◌==◌, nat_eq, string_eq, if◌then◌else◌, any, All, All-append,
}
use suburban_soc.Tenant.{matches_tenant_re}
use suburban_soc.Prune.{
  Raised, value_error, ok, raised, Clause, match_all, exists, terms, older, Request, Report,
  no_task, unclean, runtime, count_docs, delete_docs, Run, ◌>>=◌, pure, throw, send, unless, days,
  Patience,
}
use suburban_soc.Prune.Wait.{wait_for_task}
use suburban_soc.Prune.Intel.{Index, task_of, trusted}
use suburban_soc.Prune.Checkpoints.{
  all_terminal_phases, validate_tenant_id, build_query, index_of, started_deletion, counted_only,
  compact,
}

-- A document: its fields, and its age in days.
pub record Doc : Type 0 where
  pub field : String → Option String
  pub age : ℕ

-- What Elasticsearch documents of a clause, and of a filter, which is their conjunction.
abbrev pub has {ℓ} : {A : Type ℓ} → (A → Bool) → Option A → Bool
has p none = false
has p (some a) = p a

abbrev pub matches : Doc → Clause → Bool
matches d match_all = true
matches d (exists f) = has (λ v. true) (d.field f)
matches d (terms f vs) = has (λ v. any (λ w. w == v) vs) (d.field f)
matches d (older f n) = ltb n d.age

abbrev pub all_match : List Clause → Doc → Bool
all_match [] d = true
all_match (c ∷ q) d = matches d c && all_match q d

-- The document is of a terminal phase, and older than the retention.
pub record Expendable (n : ℕ) (d : Doc) : Type 0 where
  pub has_phase : d.field "phase" ≢ none
  pub not_claimed : d.field "phase" ≢ some "CLAIMED"
  pub not_resolved : d.field "phase" ≢ some "RESOLVED"
  pub not_pending : d.field "phase" ≢ some "PENDING_APPROVAL"
  pub old : n < d.age

-- What a request may do: read, or delete such documents of the tenant's index.
abbrev pub Spares : String → ℕ → Request → Type 0
Spares tenant n (count_docs i q) = Unit
Spares tenant n (delete_docs i q) =
    (i ≡ index_of tenant) × ((d : Doc) → all_match q d ≡ true → Expendable n d)

no_terminal :
    (p : Option String) (v : String)
    → has (λ w. any (λ t. t == w) all_terminal_phases) p ≡ true
    → any (λ t. t == v) all_terminal_phases ≡ false
    → p ≢ some v
no_terminal p v h k e = let h' : any (λ t. t == v) all_terminal_phases ≡ true = rw e at h in cc

has_some : (p : Option String) → has (λ v. true) p ≡ true → p ≢ none
has_some none h = cc
has_some (some v) h = λ e. cc

and-true : (a b : Bool) → (a && b) ≡ true → (a ≡ true) × (b ≡ true)
and-true true b h = (refl, h)
and-true false b h = cc

build_query-Expendable : (n : ℕ) (d : Doc) → all_match (build_query n) d ≡ true → Expendable n d
unfolding build_query
build_query-Expendable n d h =
    let phase = d.field "phase" in
    let present = has (λ v. true) phase in
    let terminal = has (λ v. any (λ t. t == v) all_terminal_phases) phase in
    let (is_present, h') = and-true present (terminal && (ltb n d.age && true)) h in
    let (is_terminal, h'') = and-true terminal (ltb n d.age && true) h' in
    let (is_old, _) = and-true (ltb n d.age) true h'' in
    record {
      has_phase = has_some phase is_present;
      not_claimed = no_terminal phase "CLAIMED" is_terminal refl;
      not_resolved = no_terminal phase "RESOLVED" is_terminal refl;
      not_pending = no_terminal phase "PENDING_APPROVAL" is_terminal refl;
      old = ground arith;
    }

module _ (tenant : String) (n : ℕ) where
  abbrev Careful {ℓ} : {A : Type ℓ} → Run A → Type 0
  Careful m = All (Spares tenant n) m.0

  Careful->>= {ℓ κ} :
      {A : Type ℓ} {B : Type κ} (m : Run B) (f : B → Run A)
      → Careful m
      → ((b : B) → Careful (f b))
      → Careful (m >>= f)
  Careful->>= (log, ok b) f hm hf = All-append (Spares tenant n) log (f b).0 hm (hf b)
  Careful->>= (log, raised e) f hm hf = hm

  Careful-if {ℓ} :
      {A : Type ℓ} (b : Bool) (m k : Run A) → Careful m → Careful k → Careful (if b then m else k)
  Careful-if true m k hm hk = hm
  Careful-if false m k hm hk = hk

  task_of-Careful : (id : Option String) → Careful (task_of id)
  task_of-Careful none = tt
  task_of-Careful (some id) = Careful-if (id == "") (throw (runtime no_task)) (pure id) tt tt

  trusted-Careful : (r : Report) → Careful (trusted r)
  unfolding trusted
  trusted-Careful r =
      Careful-if (ltb 0 r.failures || r.timed_out) (throw (runtime unclean)) (pure r.deleted) tt tt

  unless-Careful : (b : Bool) (e : Raised) → Careful (unless b e)
  unless-Careful true e = tt
  unless-Careful false e = tt

  valid-Careful : Careful (validate_tenant_id tenant)
  unfolding validate_tenant_id
  valid-Careful = unless-Careful (not (tenant == "*" || matches_tenant_re tenant)) value_error

  module _ (c : Patience) (i : Index) (named : i.name ≡ index_of tenant) where
    started_deletion-Careful : Careful (started_deletion c i (build_query n))
    unfolding started_deletion
    started_deletion-Careful =
        Careful->>= (send (delete_docs i.name (build_query n)) (i.started (build_query n))) _
          ((named, build_query-Expendable n), tt)
          λ started.
            Careful->>= (task_of started) _ (task_of-Careful started)
              λ id. Careful->>= ([], wait_for_task c i.polls) _ tt trusted-Careful

    counted_only-Careful : Careful (counted_only i (build_query n))
    unfolding counted_only
    counted_only-Careful =
        Careful->>= (send (count_docs i.name (build_query n)) (i.counted (build_query n))) _
          (tt, tt) λ matched. tt

-- Whatever is answered, `compact` only reads, and deletes from the index of the tenant that it is
-- given documents that are older than the retention, have a phase, and are not CLAIMED, RESOLVED or
-- PENDING_APPROVAL.
pub compact-Spares :
    (c : Patience) (cluster : String → Index) (tenant : String) (n : ℕ) (dry_run : Bool)
    → All (Spares tenant n) (compact c cluster tenant (days n) dry_run).0
unfolding compact
compact-Spares c cluster tenant zero dry_run = tt
compact-Spares c cluster tenant (suc n) dry_run =
    let i = record (cluster (index_of tenant)) { name = index_of tenant } in
    Careful->>= tenant (suc n) (validate_tenant_id tenant) _ (valid-Careful tenant (suc n)) λ u.
      Careful-if tenant (suc n) dry_run _ _ (counted_only-Careful tenant (suc n) c i refl)
        (started_deletion-Careful tenant (suc n) c i refl)
