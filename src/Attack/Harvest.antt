-- ===== src/Attack/Harvest.antt =====
-- `harvest`, `logsource_label` and `_validate_title`; `none` is the ValueError.
use suburban_soc.Base.{
  ℕ, String, Bool, ◌&&◌, Option, none, some, List, [], ◌∷◌, ◌++◌, map, ◌==◌, nat_eq, string_eq,
  if◌then◌else◌, any,
}
use Prim.Native.String.{◌++◌ as ◌<>◌}
use suburban_soc.Base.Text.{strip, has_text}
use suburban_soc.Agent.Intake.Perceive.{matches_technique_re}
use suburban_soc.Attack.Tables.{
  lookup, contains, tactics, service_labels, zeek_service_labels, linux_service_labels,
}
use suburban_soc.Attack.Pairs.{Pair, technique_tactic_pairs}

infixl 5 ◌>>=◌
abbrev pub ◌>>=◌ {ℓ κ} : {A : Type ℓ} {B : Type κ} → Option A → (A → Option B) → Option B
none >>= f = none
some a >>= f = f a

-- What the regular expressions find in a rule file: the tags in their order, techniques in upper case
-- and tactics in lower case, and the fields.
pub record RuleFile : Type 0 where
  pub name : String
  pub stem : String
  pub technique_tags : List String
  pub tactic_tags : List String
  pub title : Option String
  pub status : Option String
  pub category : Option String
  pub product : Option String
  pub service : Option String

-- What they find in logstash.conf.
pub record Mapping : Type 0 where
  pub technique : String
  pub technique_name : String
  pub tactic_id : String
  pub tactic : String

pub record Row : Type 0 where
  pub technique : String
  pub tactic : String
  pub source : String
  pub rule : String
  pub test : String
  pub title : String
  pub status : String

abbrev pub default {ℓ} : {A : Type ℓ} → Option A → A → A
default none d = d
default (some a) d = a

abbrev pub fallback_label : String
fallback_label = "Sysmon/Winlogbeat (process_creation)"

abbrev zeek_label : Option String → String
zeek_label none = "Zeek"
zeek_label (some svc) = default (lookup svc zeek_service_labels) ("Zeek " <> svc)

abbrev linux_label : Option String → String
linux_label none = "Filebeat (Linux)"
linux_label (some svc) =
    default (lookup svc linux_service_labels) ("Filebeat (Linux " <> (svc <> ")"))

abbrev windows_label : (category service : Option String) → String
windows_label (some c) service = "Sysmon/Winlogbeat (" <> (c <> ")")
windows_label none (some svc) = default (lookup svc service_labels) ("Winlogbeat (" <> (svc <> ")"))
windows_label none none = fallback_label

abbrev label_of : (product category service : Option String) → String
label_of none category service = fallback_label
label_of (some p) category service =
    if p == "zeek"
    then zeek_label service
    else if p == "linux"
    then linux_label service
    else if p == "windows"
    then windows_label category service
    else fallback_label

unfoldable pub logsource_label : RuleFile → String
logsource_label f = label_of f.product f.category f.service

-- _UNSAFE_TITLE_CHARS
abbrev pub unsafe_title_chars : List String
unsafe_title_chars = "|" ∷ ";" ∷ "::" ∷ []

unfoldable pub validate_title : String → Option String
unfolding has_text
validate_title title = if any (λ c. has_text c title) unsafe_title_chars then none else some title

-- `list(dict.fromkeys(xs))`
unfoldable pub distinct : (seen : List String) → List String → List String
distinct seen [] = []
distinct seen (x ∷ xs) =
    let again = distinct seen xs in
    let rest = distinct (x ∷ seen) xs in if contains seen x then again else x ∷ rest

abbrev pub name_of : String → Option String
name_of tag = do entry ← lookup tag tactics; some entry.0

-- The names of the tactics; `none` if one is unresolved.
unfoldable pub tactic_names : List String → Option (List String)
tactic_names [] = some []
tactic_names (tag ∷ tags) = do name ← name_of tag; names ← tactic_names tags; some (name ∷ names)

-- A list that has an element.
abbrev pub nonempty : List String → Option (List String)
nonempty [] = none
nonempty (x ∷ xs) = some (x ∷ xs)

abbrev pub title_of : RuleFile → String
title_of f = elim f.title [ none ↦ f.stem | some t ↦ strip t ]

abbrev pub row_of : RuleFile → (title : String) → Pair → Row
row_of f title (technique, tactic) = record {
  technique = technique;
  tactic = tactic;
  source = logsource_label f;
  rule = "rules/sigma/" <> f.name;
  test = "Detections CI: sigma->Lucene conversion + fixture replay (tests/detections/)";
  title = title;
  status = default f.status "experimental";
}

rows_with : RuleFile → List String → Option (List Row)
unfolding distinct tactic_names validate_title technique_tactic_pairs logsource_label
rows_with f [] = some []
rows_with f (t ∷ techs) = do
  tags ← nonempty (distinct [] f.tactic_tags)
  names ← tactic_names tags
  title ← validate_title (title_of f)
  pairs ← technique_tactic_pairs (t ∷ techs) names
  some (map (row_of f title) pairs)

-- The rows of one rule file.
unfoldable pub rule_rows : RuleFile → Option (List Row)
unfolding rows_with
rule_rows f = rows_with f (distinct [] f.technique_tags)

unfoldable pub all_rule_rows : List RuleFile → Option (List Row)
unfolding rule_rows
all_rule_rows [] = some []
all_rule_rows (f ∷ files) = do rows ← rule_rows f; rest ← all_rule_rows files; some (rows ++ rest)

-- `(tactic, tactic_id) in TACTICS.values()`
abbrev pub is_tactic : (name id : String) → Bool
is_tactic name id = any (λ row. row.1.0 == name && row.1.1 == id) tactics

unfoldable pub mapping_row : (ℕ → Bool) → Mapping → Option Row
unfolding validate_title
mapping_row is_digit m =
    if is_tactic m.tactic m.tactic_id && matches_technique_re is_digit m.technique
    then (do
      title ← validate_title m.technique_name
      some (record {
        technique = m.technique;
        tactic = m.tactic;
        source = "Zeek (notice / ssh)";
        rule = "configs/logstash.conf (Category 5 framework enrichment)";
        test = "tests/pipeline/test_framework_enrichment.py";
        title = title;
        status = "stable";
      }))
    else none

unfoldable pub mapping_rows : (ℕ → Bool) → List Mapping → Option (List Row)
unfolding mapping_row
mapping_rows is_digit [] = some []
mapping_rows is_digit (m ∷ ms) = do
  row ← mapping_row is_digit m
  rest ← mapping_rows is_digit ms
  some (row ∷ rest)

unfoldable pub harvest : (ℕ → Bool) → List RuleFile → List Mapping → Option (List Row)
unfolding all_rule_rows mapping_rows
harvest is_digit files mappings = do
  rows ← all_rule_rows files
  net ← mapping_rows is_digit mappings
  some (rows ++ net)
