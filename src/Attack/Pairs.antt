-- ===== src/Attack/Pairs.antt =====
-- `_technique_tactic_pairs` and `_verify_pairs`; `none` is the ValueError.
pub mod Real
use suburban_soc.Base.{
  String, ◌≡◌, refl, Bool, true, false, not, ◌&&◌, Option, none, some, List, [], ◌∷◌, map, ◌==◌,
  nat_eq, string_eq, if◌then◌else◌, length,
}
use suburban_soc.Attack.Tables.{lookup, contains, technique_tactics}

-- A technique with a tactic.
abbrev pub Pair : Type 0
Pair = String × String

-- Whether the table allows a pair. A technique that it lacks is allowed unless it has to be known.
abbrev pub allowed : (require_known : Bool) → Option (List String) → String → Bool
allowed known none tactic = not known
allowed known (some valid) tactic = contains valid tactic

unfoldable pub is_real : (require_known : Bool) → Pair → Bool
is_real known (technique, tactic) = allowed known (lookup technique technique_tactics) tactic

-- The `for`, which raises at the first pair that is not allowed.
all_real : Bool → List Pair → Bool
unfolding is_real
all_real known [] = true
all_real known (p ∷ ps) = is_real known p && all_real known ps

unfoldable pub verify_pairs : List Pair → (require_known : Bool) → Option (List Pair)
unfolding all_real
verify_pairs ps known = if all_real known ps then some ps else none

abbrev pub zip : List String → List String → List Pair
zip [] bs = []
zip (a ∷ as') [] = []
zip (a ∷ as') (b ∷ bs) = (a, b) ∷ zip as' bs

unfoldable pub technique_tactic_pairs : (techs tacs : List String) → Option (List Pair)
unfolding verify_pairs
technique_tactic_pairs (t ∷ []) (a ∷ []) = some ((t, a) ∷ [])
technique_tactic_pairs (t ∷ []) tacs = verify_pairs (map (λ a. (t, a)) tacs) true
technique_tactic_pairs techs (a ∷ []) = verify_pairs (map (λ t. (t, a)) techs) true
technique_tactic_pairs techs tacs =
    if length techs == length tacs then verify_pairs (zip techs tacs) false else none

broadcast :
    technique_tactic_pairs ("T1055" ∷ []) ("Defense Evasion" ∷ "Privilege Escalation" ∷ [])
    ≡ some (("T1055", "Defense Evasion") ∷ ("T1055", "Privilege Escalation") ∷ [])
unfolding technique_tactic_pairs
broadcast = refl

-- T1005 is no Credential Access technique.
unreal : technique_tactic_pairs ("T1005" ∷ []) ("Collection" ∷ "Credential Access" ∷ []) ≡ none
unfolding technique_tactic_pairs
unreal = refl
