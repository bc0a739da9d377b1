-- ===== src/Slo/Intel.antt =====
-- The drop of the threat-intelligence indicators in scripts/setup/ai_agent/slo_metrics.py.
use suburban_soc.Base.{
  ℕ, ◌-◌, ◌*◌, String, false, Option, none, some, List, [], ◌∷◌, ◌++◌, ltb, nat_eq, string_eq,
  if◌then◌else◌,
}
use suburban_soc.Slo.{
  Measured, measured, unavailable, ◌>>=◌, pos, Reading, no_data, number, round_2, match_all, Stored,
  stored, absent, other, Cluster, read_ok, rounded,
}
use suburban_soc.Slo.Counts.{count_of}

unfoldable pub intel_indicator_actual_count : Cluster → Measured ℕ
intel_indicator_actual_count c = count_of c "threat-intel-indicators" (match_all ∷ []) false

-- A count that is no number is no baseline.
abbrev pub baseline_of : List Stored → Option ℕ
baseline_of (stored n ∷ rows) = some n
baseline_of rows = none

unfoldable pub prior_intel_actual_count : Cluster → (age : String) → Measured (Option ℕ)
unfolding read_ok
prior_intel_actual_count c age = do rows ← read_ok (c.prior_count age); measured (baseline_of rows)

-- What the last heartbeat reports; a value that is no number is no measurement.
abbrev pub reported_of : List Stored → Measured (Option ℕ)
reported_of [] = measured none
reported_of (stored n ∷ rows) = measured (some n)
reported_of (absent ∷ rows) = measured none
reported_of (other ∷ rows) = unavailable

-- A candidate: how many of how many indicators are gone. A baseline of zero gives none.
pub record Fraction : Type 0 where
  pub lost_of : ℕ
  pub base : ℕ

unfoldable pub candidate : (actual : ℕ) → Option ℕ → List Fraction
candidate actual none = []
candidate actual (some n) = if ltb 0 n then record { lost_of = n - actual; base = n } ∷ [] else []

-- `max`, by cross-multiplication
abbrev pub larger : Fraction → Fraction → Fraction
larger a b = if ltb (a.lost_of * b.base) (b.lost_of * a.base) then b else a

abbrev pub largest : Fraction → List Fraction → Fraction
largest a [] = a
largest a (b ∷ bs) = largest (larger a b) bs

abbrev pub drop_of : List Fraction → Reading
drop_of [] = no_data
drop_of (a ∷ as') = let m = largest a as' in number (pos (round_2 (100 * m.lost_of) m.base))

unfoldable pub candidates : (reported prior : Option ℕ) (actual : ℕ) → List Fraction
unfolding candidate
candidates reported prior actual = candidate actual reported ++ candidate actual prior

unfoldable pub intel_indicator_count_drop_pct : Cluster → (age : String) → Measured Reading
unfolding candidates rounded intel_indicator_actual_count prior_intel_actual_count read_ok
intel_indicator_count_drop_pct c age = do
  rows ← read_ok c.heartbeat
  reported ← reported_of rows
  actual ← intel_indicator_actual_count c
  prior ← prior_intel_actual_count c age
  measured (drop_of (candidates reported prior actual))
