-- ===== src/Slo/Claims.antt =====
-- The approval claims in scripts/setup/ai_agent/slo_metrics.py: claims without a checkpoint, and
-- claims that have vanished since an earlier sample.
pub mod Vanished
use suburban_soc.Base.{
  ◌+◌, String, Bool, true, false, not, ◌&&◌, ◌||◌, Option, none, some, List, [], ◌∷◌, ◌++◌, ◌==◌,
  nat_eq, string_eq, if◌then◌else◌, length, any, count,
}
use suburban_soc.Base.Text.{starts_with, ends_with, before_suffix}
use suburban_soc.Slo.{
  ◌>>=◌, Measured, measured, unavailable, Reading, until, term, DocRef, Got, found, missing,
  errored, Row, Entry, entry, malformed, Cluster, read_ok,
}
use suburban_soc.Slo.Counts.{whole}

-- The checkpoint of a claim's row, if the row has an index and an id that ends in `.claim`.
base_of : Option String → Option String → Option DocRef
base_of (some id) (some index) =
    let base = if ends_with ".claim" id then before_suffix ".claim" id else "" in
    if index == "" || base == "" then none else some (record { index = index; id = base })
base_of id index = none

abbrev pub cons_some {ℓ} : {A : Type ℓ} → Option A → List A → List A
cons_some none xs = xs
cons_some (some x) xs = x ∷ xs

docs_to_check : List Row → List DocRef
unfolding base_of
docs_to_check [] = []
docs_to_check (r ∷ rows) = cons_some (base_of r.row_id r.row_index) (docs_to_check rows)

-- `d.get("found")`: a row that is an error has no such key.
abbrev pub is_found : Got → Bool
is_found found = true
is_found missing = false
is_found errored = false

abbrev pub is_error : Got → Bool
is_error errored = true
is_error g = false

abbrev pub unfound : Got → Bool
unfound g = not (is_found g)

-- The documents asked for, unless there are none.
abbrev pub asked : Cluster → List DocRef → Measured (List Got)
asked c [] = measured []
asked c (d ∷ ds) = read_ok (c.mget (d ∷ ds))

unfoldable pub orphaned_claims : Cluster → (cutoff : Option String) → Measured Reading
unfolding read_ok docs_to_check
orphaned_claims c none = unavailable
orphaned_claims c (some age) = do
  rows ← read_ok (c.searched true 200 (term "phase" "CLAIMED" ∷ until "@timestamp" age ∷ []))
  results ← asked c (docs_to_check rows)
  measured (whole (count unfound results))

ref_of : Option String → Option String → Option DocRef
ref_of (some id) (some index) = some (record { index = index; id = id })
ref_of id index = none

-- The rows that have both an index and an id.
unfoldable pub refs : List Row → List DocRef
unfolding ref_of
refs [] = []
refs (r ∷ rows) = cons_some (ref_of r.row_id r.row_index) (refs rows)

unfoldable pub claimed_snapshot : Cluster → Measured (List DocRef)
unfolding read_ok refs
claimed_snapshot c = do
  claimed ← read_ok (c.searched true 200 (term "phase" "CLAIMED" ∷ []))
  resolved ← read_ok (c.searched false 200 (term "phase" "RESOLVED" ∷ []))
  measured (refs (claimed ++ resolved))

-- A claim document of the checkpoints.
unfoldable pub is_claim : DocRef → Bool
unfolding starts_with ends_with
is_claim d = starts_with "agent-checkpoints-" d.index && ends_with ".claim" d.id

unfoldable pub usable : List Entry → List DocRef
unfolding is_claim
usable [] = []
usable (malformed ∷ es) = usable es
usable (entry d ∷ es) = let rest = usable es in if is_claim d then d ∷ rest else rest

abbrev pub first_or_empty : List (List Entry) → List Entry
first_or_empty [] = []
first_or_empty (s ∷ samples) = s

-- The documents that were not found, by position: `zip` of what was asked with the answer.
unfoldable pub not_found : List DocRef → List Got → List DocRef
not_found [] gs = []
not_found (d ∷ ds) [] = []
not_found (d ∷ ds) (g ∷ gs) = let rest = not_found ds gs in if is_found g then rest else d ∷ rest

-- An answer with an unreadable document or of another length is no measurement.
unfoldable pub compared : List DocRef → List Got → Measured (List DocRef)
unfolding not_found
compared prior results =
    if any is_error results
    then unavailable
    else if length results == length prior
    then measured (not_found prior results)
    else unavailable

unfoldable pub vanished_claims_detail : Cluster → (age : String) → Measured (List DocRef)
unfolding read_ok usable compared
vanished_claims_detail c age = do
  samples ← read_ok (c.prior_snapshot age)
  results ← asked c (usable (first_or_empty samples))
  compared (usable (first_or_empty samples)) results

unfoldable pub vanished_claims : Cluster → (age : String) → Measured Reading
unfolding vanished_claims_detail
vanished_claims c age = do docs ← vanished_claims_detail c age; measured (whole (length docs))
