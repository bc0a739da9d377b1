-- ===== src/Slo/Access.antt =====
-- `_slo_metrics_reader_read_patterns` and `_check_slo_metrics_reader_privileges` of
-- scripts/setup/ai_agent/slo_metrics.py.
use suburban_soc.Base.{
  String, Option, none, some, List, [], ◌∷◌, ◌++◌, ◌==◌, nat_eq, string_eq, if◌then◌else◌, any,
}
use suburban_soc.Slo.{Measured, measured, unavailable, ◌>>=◌, Cluster, read_ok}

-- An entry of the role file.
pub record Grant : Type 0 where
  pub names : List String
  pub privileges : List String

abbrev readable : List Grant → List String
readable [] = []
readable (g ∷ gs) =
    let rest = readable gs in if any (λ p. p == "read") g.privileges then g.names ++ rest else rest

-- `none` is a file that cannot be read.
unfoldable pub read_patterns : Option (List Grant) → Measured (List String)
read_patterns none = unavailable
read_patterns (some role) = measured (readable role)

abbrev pub granted : Cluster → List String → Measured (Unit {0})
granted c [] = unavailable
granted c (p ∷ patterns) = do
  r ← read_ok (c.has_privileges (p ∷ patterns))
  (if r.has_all_requested then measured tt else unavailable)

unfoldable pub check_privileges : Cluster → Option (List Grant) → Measured (Unit {0})
unfolding read_patterns read_ok
check_privileges c role = do patterns ← read_patterns role; granted c patterns
