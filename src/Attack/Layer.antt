-- ===== src/Attack/Layer.antt =====
-- `unique_technique_count`, `_merged_comment` and `navigator_layer`, with what of `markdown` depends on
-- the rows.
pub mod Groups
pub mod Shown
use suburban_soc.Base.{
  ℕ, zero, suc, ◌+◌, ◌-◌, ◌*◌, ◌^◌, ◌≤◌, ◌<◌, String, ◌≡◌, refl, sym, ap, ◌∙◌, ◌≢◌, ◌↔◌, ◌⊎◌, inl,
  inr, Bool, true, false, not, ◌&&◌, ◌||◌, Option, none, some, List, [], ◌∷◌, ◌++◌, map, arith, ltb,
  leb, Eq, ◌==◌, nat_eq, string_eq, beq_refl, ne_of_beq, eq_of_beq, All-mono, if◌then◌else◌,
  Bool-cases, Option-cases, length, select, any, count, All, length-append, select-append,
  any-append, count-append, count-le-length, All-append, All-of,
}
use Prim.Native.String.{◌++◌ as ◌<>◌}
use suburban_soc.Base.Text.{has_text, lower, dashed}
use suburban_soc.Attack.Tables.{contains, backlog_tactics}
use suburban_soc.Attack.Harvest.{Row, distinct}

unfoldable pub unique_technique_count : List Row → ℕ
unfolding distinct
unique_technique_count rows = length (distinct [] (map (λ r. r.technique) rows))

-- A cell of the matrix, with the rows that it stands for.
pub record Group : Type 0 where
  pub technique : String
  pub tactic : String
  pub rows : List Row

abbrev pub keyed : String → String → Group → Bool
keyed technique tactic g = g.technique == technique && g.tactic == tactic

-- `setdefault(key, []).append(r)`
unfoldable pub append_row : Row → List Group → List Group
append_row r [] = record { technique = r.technique; tactic = r.tactic; rows = r ∷ [] } ∷ []
append_row r (g ∷ gs) =
    let rest = append_row r gs in
    if keyed r.technique r.tactic g then record g { rows = g.rows ++ r ∷ [] } ∷ gs else g ∷ rest

unfoldable pub group_from : List Group → List Row → List Group
unfolding append_row
group_from gs [] = gs
group_from gs (r ∷ rows) = group_from (append_row r gs) rows

unfoldable pub grouped : List Row → List Group
unfolding group_from
grouped rows = group_from [] rows

-- The delimiters, stripped, in none of the texts of a comment: the assertions.
abbrev pub clean_text : String → Bool
clean_text s = not (has_text "::" s) && not (has_text ";" s)

abbrev pub clean_row : Row → Bool
clean_row r = clean_text r.title && (clean_text r.rule && clean_text r.test)

abbrev pub all_rows : (Row → Bool) → List Row → Bool
all_rows p [] = true
all_rows p (r ∷ rows) = p r && all_rows p rows

abbrev pub joined : List String → String
joined [] = ""
joined (s ∷ []) = s
joined (s ∷ t ∷ ss) = s <> ("; " <> joined (t ∷ ss))

abbrev pub titled : Row → String
titled r = r.title <> (" :: " <> r.rule)

abbrev pub suffixed : String → String → String
suffixed s test = s <> (" (test: " <> (test <> ")"))

-- Whether all rows have the test of the first.
abbrev pub one_test : List Row → Bool
one_test [] = false
one_test (r ∷ rows) = all_rows (λ q. q.test == r.test) rows

abbrev pub first_test : List Row → String
first_test [] = ""
first_test (r ∷ rows) = r.test

-- `none` is the AssertionError.
unfoldable pub merged_comment : List Row → Option String
unfolding has_text
merged_comment rows =
    if all_rows clean_row rows
    then some (
        if one_test rows
        then suffixed (joined (map titled rows)) (first_test rows)
        else joined (map (λ r. suffixed (titled r) r.test) rows))
    else none

-- An entry of the layer.
pub record Entry : Type 0 where
  pub technique : String
  pub tactic : String
  pub comment : String

abbrev pub cons_entry : Group → Option String → Option (List Entry) → Option (List Entry)
cons_entry g none rest = none
cons_entry g (some comment) none = none
cons_entry g (some comment) (some rest) =
    some (record { technique = g.technique; tactic = g.tactic; comment = comment } ∷ rest)

unfoldable pub entries : List Group → Option (List Entry)
unfolding merged_comment
entries [] = some []
entries (g ∷ gs) = cons_entry g (merged_comment g.rows) (entries gs)

-- `tactic.lower().replace(" ", "-")`, of the tactic that the cell is keyed by
unfoldable pub emitted : Entry → Entry
unfolding lower dashed
emitted e = record e { tactic = dashed (lower e.tactic) }

pub record Layer : Type 0 where
  pub techniques : List Entry
  pub detections : ℕ
  pub unique_techniques : ℕ

abbrev pub layer_of : List Row → Option (List Entry) → Option Layer
layer_of rows none = none
layer_of rows (some es) = some (record {
  techniques = map emitted es;
  detections = length rows;
  unique_techniques = unique_technique_count rows;
})

unfoldable pub navigator_layer : List Row → Option Layer
unfolding grouped entries emitted unique_technique_count
navigator_layer rows = layer_of rows (entries (grouped rows))

-- The tactics of the backlog that have no row.
unfoldable pub gaps : List Row → List String
gaps rows = select (λ t. not (contains (map (λ r. r.tactic) rows) t)) backlog_tactics
