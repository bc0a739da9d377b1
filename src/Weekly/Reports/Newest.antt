-- ===== src/Weekly/Reports/Newest.antt =====
-- What pruning deletes is older than what it could have deleted and kept.
use suburban_soc.Weekly.Reports.{Report, insert, newest_first, take, drop, prune_old_reports}
use suburban_soc.Base.{
  ℕ, zero, suc, ◌+◌, ◌≤◌, ◌≡◌, refl, ◌⊎◌, inl, inr, Bool, false, not, List, [], ◌∷◌, ◌++◌, arith,
  leb, nat_eq, string_eq, All-mono, Bool-cases, length, select, count, All, length-append,
  count-append, All-append, All-of,
}

count-insert :
    (p : Report → Bool) (r : Report) (rs : List Report) → count p (insert r rs) ≡ count p (r ∷ rs)
unfolding insert
count-insert p r [] = refl
count-insert p r (s ∷ ss) = ground (arith, count-insert p r ss)

count-newest_first : (p : Report → Bool) (rs : List Report) → count p (newest_first rs) ≡ count p rs
unfolding newest_first
count-newest_first p [] = refl
count-newest_first p (r ∷ rs) =
    omega (arith, count-insert p r (newest_first rs), count-newest_first p rs)

-- No report of the list is newer than `r`.
abbrev Older : Report → List Report → Type 0
Older r rs = All (λ s. s.mtime ≤ r.mtime) rs

Falling : List Report → Type 0
Falling [] = Unit
Falling (r ∷ rs) = Older r rs × Falling rs

insert-Older :
    (q r : Report) (rs : List Report) → r.mtime ≤ q.mtime → Older q rs → Older q (insert r rs)
unfolding insert
insert-Older q r [] h older = (h, tt)
insert-Older q r (s ∷ ss) h older = elim (Bool-cases (leb s.mtime r.mtime)) [
  | inl before ↦ rw before (h, older)
  | inr behind ↦ rw behind (older.0, insert-Older q r ss h older.1)
]

insert-Falling : (r : Report) (rs : List Report) → Falling rs → Falling (insert r rs)
unfolding insert Falling
insert-Falling r [] falling = (tt, tt)
insert-Falling r (s ∷ ss) falling = elim (Bool-cases (leb s.mtime r.mtime)) [
  | inl before ↦
      rw before (
        (ground (arith, before), All-mono (λ t h. ground (arith, before, h)) ss falling.0),
        falling,
      )
  | inr behind ↦
      rw behind
        (insert-Older s r ss (ground (arith, behind)) falling.0, insert-Falling r ss falling.1)
]

newest_first-Falling : (rs : List Report) → Falling (newest_first rs)
unfolding newest_first Falling
newest_first-Falling [] = tt
newest_first-Falling (r ∷ rs) = insert-Falling r (newest_first rs) (newest_first-Falling rs)

count-take-drop :
    (p : Report → Bool) (n : ℕ) (rs : List Report)
    → count p (take n rs) + count p (drop n rs) ≡ count p rs
unfolding take drop
count-take-drop p zero rs = omega arith
count-take-drop p (suc n) [] = omega arith
count-take-drop p (suc n) (r ∷ rs) = omega (arith, count-take-drop p n rs)

length-take : (n : ℕ) (rs : List Report) → length (take n rs) ≤ n
unfolding take
length-take zero rs = omega arith
length-take (suc n) [] = omega arith
length-take (suc n) (r ∷ rs) = omega (arith, length-take n rs)

-- What is taken is enough, or nothing is left to drop.
take-enough : (n : ℕ) (rs : List Report) → (n ≤ length (take n rs)) ⊎ (drop n rs ≡ [])
unfolding take drop
take-enough zero rs = inl (omega arith)
take-enough (suc n) [] = inr refl
take-enough (suc n) (r ∷ rs) = elim (take-enough n rs) [
  | inl enough ↦ inl (omega (arith, enough))
  | inr nothing ↦ inr nothing
]

-- Selected by a test and by its opposite, a list is whole.
count-split :
    (p q : Report → Bool) (rs : List Report)
    → count p (select q rs) + count p (select (λ r. not (q r)) rs) ≡ count p rs
count-split p q [] = omega arith
count-split p q (r ∷ rs) = ground (arith, count-split p q rs)

length-select : (p : Report → Bool) (rs : List Report) → length (select p rs) ≡ count p rs
length-select p [] = refl
length-select p (r ∷ rs) = ground (arith, length-select p rs)

-- `k` was not to be deleted, or is at least as new as `d`.
abbrev pub Outlives : (Report → Bool) → Report → Report → Type 0
Outlives unlinks d k = (unlinks k ≡ false) ⊎ (d.mtime ≤ k.mtime)

select-All :
    (P : Report → Type 0) (q : Report → Bool) (rs : List Report) → All P rs → All P (select q rs)
select-All P q [] h = tt
select-All P q (r ∷ rs) h = elim (Bool-cases (q r)) [
  | inl e ↦ rw e (h.0, select-All P q rs h.1)
  | inr e ↦ rw e (select-All P q rs h.1)
]

-- Behind a report of a falling list, every report is no newer than those before it.
Before : List Report → Report → Type 0
Before ks d = All (λ k. d.mtime ≤ k.mtime) ks

drop-Older : (q : Report) (n : ℕ) (rs : List Report) → Older q rs → Older q (drop n rs)
unfolding drop
drop-Older q zero rs h = h
drop-Older q (suc n) [] h = tt
drop-Older q (suc n) (r ∷ rs) h = drop-Older q n rs h.1

All-and :
    (P Q : Report → Type 0) → (rs : List Report) → All P rs → All Q rs → All (λ r. P r × Q r) rs
All-and P Q [] h k = tt
All-and P Q (r ∷ rs) h k = ((h.0, k.0), All-and P Q rs h.1 k.1)

take-Before : (n : ℕ) (rs : List Report) → Falling rs → All (Before (take n rs)) (drop n rs)
unfolding take drop Falling Before
take-Before zero rs falling = All-of (λ d. tt) rs
take-Before (suc n) [] falling = tt
take-Before (suc n) (r ∷ rs) falling =
    All-and (λ d. d.mtime ≤ r.mtime) (Before (take n rs)) (drop n rs) (drop-Older r n rs falling.0)
      (take-Before n rs falling.1)

stuck-All :
    (unlinks : Report → Bool) (rs : List Report)
    → All (λ k. unlinks k ≡ false) (select (λ r. not (unlinks r)) rs)
stuck-All unlinks [] = tt
stuck-All unlinks (r ∷ rs) = elim (Bool-cases (unlinks r)) [
  | inl e ↦ rw e (stuck-All unlinks rs)
  | inr e ↦ rw e (e, stuck-All unlinks rs)
]

-- Pruning deletes or keeps every report. It keeps at most `keep` besides those that it could not
-- delete; it keeps at least `keep`, or deletes nothing; and each that it deletes is no newer than any
-- that it kept by choice.
pub prune_keeps_newest :
    (unlinks p : Report → Bool) (directory : List Report) (keep : ℕ)
    → (count p (prune_old_reports unlinks directory keep).deleted
          + count p (prune_old_reports unlinks directory keep).left
        ≡ count p directory)
      × (length (prune_old_reports unlinks directory keep).left
          ≤ keep + count (λ r. not (unlinks r)) directory)
      × ((keep ≤ length (prune_old_reports unlinks directory keep).left)
          ⊎ ((prune_old_reports unlinks directory keep).deleted ≡ []))
      × All
          (λ d. All (Outlives unlinks d) (prune_old_reports unlinks directory keep).left)
          (prune_old_reports unlinks directory keep).deleted
unfolding prune_old_reports Before
prune_keeps_newest unlinks p directory keep =
    let rs = newest_first directory in
    let stale = drop keep rs in
    let stuck = select (λ r. not (unlinks r)) stale in
    (
      omega (
        arith,
        count-append p (take keep rs) stuck,
        count-split p unlinks stale,
        count-take-drop p keep rs,
        count-newest_first p directory,
      ),
      omega (
        arith,
        length-append (take keep rs) stuck,
        length-take keep rs,
        length-select (λ r. not (unlinks r)) stale,
        count-take-drop (λ r. not (unlinks r)) keep rs,
        count-newest_first (λ r. not (unlinks r)) directory,
      ),
      elim (take-enough keep rs) [
        | inl enough ↦ inl (omega (arith, length-append (take keep rs) stuck, enough))
        | inr nothing ↦ inr (rw nothing refl)
      ],
      select-All (λ d. All (Outlives unlinks d) (take keep rs ++ stuck)) unlinks stale
          (All-mono
            (λ d before.
              All-append (Outlives unlinks d) (take keep rs) stuck
                (All-mono (λ k h. inr h) (take keep rs) before)
                (All-mono (λ k h. inl h) stuck (stuck-All unlinks stale)))
            stale (take-Before keep rs (newest_first-Falling directory))),
    )
