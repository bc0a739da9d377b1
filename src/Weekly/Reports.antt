-- ===== src/Weekly/Reports.antt =====
-- `_prune_old_reports`. The retention count is not negative; a report that cannot be deleted is one
-- whose `unlink` raises an OSError.
pub mod Newest
use suburban_soc.Base.{
  ℕ, zero, suc, ◌+◌, String, Bool, not, List, [], ◌∷◌, ◌++◌, leb, if◌then◌else◌, select,
}

pub record Report : Type 0 where
  pub name : String
  pub mtime : ℕ

-- `sorted(..., key=mtime, reverse=True)`: equal keys stay in their order.
unfoldable pub insert : Report → List Report → List Report
insert r [] = r ∷ []
insert r (s ∷ ss) = let rest = insert r ss in if leb s.mtime r.mtime then r ∷ s ∷ ss else s ∷ rest

unfoldable pub newest_first : List Report → List Report
unfolding insert
newest_first [] = []
newest_first (r ∷ rs) = insert r (newest_first rs)

-- `reports[:keep]` and `reports[keep:]`
unfoldable pub take : ℕ → List Report → List Report
take zero rs = []
take (suc n) [] = []
take (suc n) (r ∷ rs) = r ∷ take n rs

unfoldable pub drop : ℕ → List Report → List Report
drop zero rs = rs
drop (suc n) [] = []
drop (suc n) (r ∷ rs) = drop n rs

pub record Pruned : Type 0 where
  pub deleted : List Report
  pub left : List Report

-- `unlinks` tells which reports can be deleted.
unfoldable pub prune_old_reports : (Report → Bool) → List Report → ℕ → Pruned
unfolding newest_first take drop
prune_old_reports unlinks directory keep =
    let reports = newest_first directory in
    record {
      deleted = select unlinks (drop keep reports);
      left = take keep reports ++ select (λ r. not (unlinks r)) (drop keep reports);
    }
