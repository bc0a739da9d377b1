-- ===== src/Tests/Attack.antt =====
-- The coverage matrix of a few rules.
use suburban_soc.Base.{
  String, ◌≡◌, refl, inl, inr, false, none, some, List, [], ◌∷◌, nat_eq, string_eq,
}
use suburban_soc.Base.Text.{strip, has_text, lower, lower_char, dashed}
use suburban_soc.Attack.Pairs.{Pair, technique_tactic_pairs}
use suburban_soc.Attack.Pairs.Real.{Sound, pairs-Sound}
use suburban_soc.Attack.Harvest.{RuleFile, Row, harvest}
use suburban_soc.Attack.Layer.Shown.{Somewhere, Shows, rows_shown}
use suburban_soc.Attack.Layer.{Layer, navigator_layer}

abbrev pairs : List Pair
pairs = ("T1055", "Defense Evasion") ∷ ("T1055", "Privilege Escalation") ∷ []

pairs-Sound_example : Sound ("T1055" ∷ []) ("Defense Evasion" ∷ "Privilege Escalation" ∷ []) pairs
unfolding technique_tactic_pairs
pairs-Sound_example =
    pairs-Sound "T1055" "Defense Evasion" [] ("Privilege Escalation" ∷ []) pairs refl

abbrev rule : String → String → List String → RuleFile
rule name technique tags = record {
  name = name;
  stem = name;
  technique_tags = technique ∷ technique ∷ [];
  tactic_tags = tags;
  title = some " Dump ";
  status = none;
  category = none;
  product = some "linux";
  service = some "auth";
}

abbrev row : String → String → String → Row
row name technique tactic = record {
  technique = technique;
  tactic = tactic;
  source = "Filebeat (Linux auth.log)";
  rule = name;
  test = "Detections CI: sigma->Lucene conversion + fixture replay (tests/detections/)";
  title = "Dump";
  status = "experimental";
}

abbrev rows : List Row
rows =
    row "rules/sigma/a.yml" "T1003" "Credential Access"
    ∷ row "rules/sigma/b.yml" "T1005" "Collection"
    ∷ row "rules/sigma/c.yml" "T1003" "Credential Access"
    ∷ []

harvests :
    harvest
      (λ n. false)
      (rule "a.yml" "T1003" ("credential_access" ∷ [])
        ∷ rule "b.yml" "T1005" ("collection" ∷ [])
        ∷ rule "c.yml" "T1003" ("credential_access" ∷ [])
        ∷ [])
      []
    ≡ some rows
unfolding harvest strip
harvests = refl

-- T1005 is tagged with a tactic that it does not belong to.
refused :
    harvest (λ n. false) (rule "d.yml" "T1005" ("collection" ∷ "credential_access" ∷ []) ∷ []) []
    ≡ none
unfolding harvest strip
refused = refl

abbrev layer : Layer
layer = record {
  techniques =
      record {
        technique = "T1003";
        tactic = "credential-access";
        comment =
            "Dump :: rules/sigma/a.yml; Dump :: rules/sigma/c.yml (test: Detections CI: sigma->Lucene conversion + fixture replay (tests/detections/))";
      }
      ∷ record {
        technique = "T1005";
        tactic = "collection";
        comment =
            "Dump :: rules/sigma/b.yml (test: Detections CI: sigma->Lucene conversion + fixture replay (tests/detections/))";
      }
      ∷ [];
  detections = 3;
  unique_techniques = 2;
}

layered : navigator_layer rows ≡ some layer
unfolding navigator_layer has_text lower lower_char dashed
layered = refl

rows_shown_example :
    Somewhere (Shows (row "rules/sigma/c.yml" "T1003" "Credential Access")) layer.techniques
rows_shown_example =
    rows_shown rows layer (row "rules/sigma/c.yml" "T1003" "Credential Access") layered
      (inr (inr (inl refl)))
