-- ===== src/Tests/Baseline.antt =====
-- The threshold baseline on a few events.
use suburban_soc.Base.{
  ℕ, ◌*◌, ◌≤◌, ◌<◌, String, ◌≡◌, refl, ◌≢◌, ◌⊎◌, List, [], ◌∷◌, arith, nat_eq, string_eq,
}
use suburban_soc.Baseline.Window.{sorted, window_max}
use suburban_soc.Baseline.Window.Densest.{in_window, window_max_exact}
use suburban_soc.Baseline.Suggest.{
  Track, Candidate, Event, Margin, width_of, by_sid, analysis, cmd_analyze, refused,
}
use suburban_soc.Baseline.Suggest.Clears.{times, suggestion_clears}

abbrev rule : Candidate
rule = record { sid = 2000001; track = Track.by_src; threshold = 3; seconds = 60 }

abbrev at_second : ℕ → String → Event
at_second t src = record { sid = 2000001; src = src; dst = "10.0.0.9"; ts = 1_000_000 * t }

-- One host alerts five times within a minute.
abbrev noisy : List Event
noisy =
    at_second 70 "10.0.0.5"
    ∷ at_second 10 "10.0.0.5"
    ∷ at_second 30 "10.0.0.5"
    ∷ at_second 20 "10.0.0.7"
    ∷ at_second 40 "10.0.0.5"
    ∷ at_second 50 "10.0.0.5"
    ∷ at_second 69 "10.0.0.5"
    ∷ []

abbrev margin : Margin
margin = record { num = 5; den = 4 }

suggests : (analysis (rule ∷ []) noisy margin rule).suggestion ≡ 8
unfolding analysis window_max sorted
suggests = refl

window_max_exact_example :
    ((t : ℕ) → in_window (4 ∷ 1 ∷ 2 ∷ []) 2 t ≤ window_max (sorted (4 ∷ 1 ∷ 2 ∷ [])) 2)
    × ((t : ℕ) × (in_window (4 ∷ 1 ∷ 2 ∷ []) 2 t ≡ window_max (sorted (4 ∷ 1 ∷ 2 ∷ [])) 2))
window_max_exact_example = window_max_exact (4 ∷ 1 ∷ 2 ∷ []) 2

margin_allowed : cmd_analyze (rule ∷ []) margin [] noisy 7 ≢ refused
unfolding cmd_analyze
margin_allowed h = cc

suggestion_clears_example :
    let a = analysis (rule ∷ []) noisy margin rule in
    (rule.threshold ≤ a.suggestion)
    × ((key : String) (t : ℕ)
        → (in_window (times rule key noisy) (width_of rule) t ≡ 0)
          ⊎ (in_window (times rule key noisy) (width_of rule) t < a.suggestion))
unfolding by_sid
suggestion_clears_example =
    suggestion_clears (rule ∷ []) rule margin [] noisy 7 refl (omega arith) margin_allowed
