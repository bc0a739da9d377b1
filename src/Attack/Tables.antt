-- ===== src/Attack/Tables.antt =====
-- The tables of scripts/setup/build_attack_coverage.py.
use suburban_soc.Base.{
  String, Bool, Option, none, some, List, [], ◌∷◌, ◌==◌, nat_eq, string_eq, if◌then◌else◌, any,
}

-- `dict.get`: the first row of a key.
abbrev pub lookup {ℓ} : {A : Type ℓ} → String → List (String × A) → Option A
lookup k [] = none
lookup k ((j, a) ∷ rows) = let rest = lookup k rows in if j == k then some a else rest

abbrev pub contains : List String → String → Bool
contains names name = any (λ n. n == name) names

-- TACTICS: the tag, the name and the number of each tactic.
abbrev pub tactics : List (String × (String × String))
tactics =
    ("reconnaissance", ("Reconnaissance", "TA0043"))
    ∷ ("resource_development", ("Resource Development", "TA0042"))
    ∷ ("initial_access", ("Initial Access", "TA0001"))
    ∷ ("execution", ("Execution", "TA0002"))
    ∷ ("persistence", ("Persistence", "TA0003"))
    ∷ ("privilege_escalation", ("Privilege Escalation", "TA0004"))
    ∷ ("defense_evasion", ("Defense Evasion", "TA0005"))
    ∷ ("credential_access", ("Credential Access", "TA0006"))
    ∷ ("discovery", ("Discovery", "TA0007"))
    ∷ ("lateral_movement", ("Lateral Movement", "TA0008"))
    ∷ ("collection", ("Collection", "TA0009"))
    ∷ ("command_and_control", ("Command and Control", "TA0011"))
    ∷ ("exfiltration", ("Exfiltration", "TA0010"))
    ∷ ("impact", ("Impact", "TA0040"))
    ∷ []

-- TECHNIQUE_TACTICS
abbrev pub technique_tactics : List (String × List String)
technique_tactics =
    ("T1005", "Collection" ∷ [])
    ∷ ("T1021", "Lateral Movement" ∷ [])
    ∷ ("T1027", "Defense Evasion" ∷ [])
    ∷ ("T1053.005", "Execution" ∷ "Persistence" ∷ "Privilege Escalation" ∷ [])
    ∷ ("T1055", "Defense Evasion" ∷ "Privilege Escalation" ∷ [])
    ∷ ("T1056.002", "Collection" ∷ "Credential Access" ∷ [])
    ∷ ("T1059.001", "Execution" ∷ [])
    ∷ ("T1059.005", "Execution" ∷ [])
    ∷ ("T1059.007", "Execution" ∷ [])
    ∷ ("T1068", "Privilege Escalation" ∷ [])
    ∷ ("T1071.004", "Command and Control" ∷ [])
    ∷ ("T1078", "Initial Access" ∷ "Persistence" ∷ "Privilege Escalation" ∷ "Defense Evasion" ∷ [])
    ∷ (
      "T1078.002",
      "Initial Access" ∷ "Persistence" ∷ "Privilege Escalation" ∷ "Defense Evasion" ∷ [],
    )
    ∷ (
      "T1078.003",
      "Initial Access" ∷ "Persistence" ∷ "Privilege Escalation" ∷ "Defense Evasion" ∷ [],
    )
    ∷ ("T1098", "Persistence" ∷ "Privilege Escalation" ∷ [])
    ∷ ("T1105", "Command and Control" ∷ [])
    ∷ ("T1134", "Defense Evasion" ∷ "Privilege Escalation" ∷ [])
    ∷ ("T1543.003", "Persistence" ∷ "Privilege Escalation" ∷ [])
    ∷ ("T1546.008", "Persistence" ∷ "Privilege Escalation" ∷ [])
    ∷ ("T1550.002", "Defense Evasion" ∷ "Lateral Movement" ∷ [])
    ∷ ("T1569.002", "Execution" ∷ [])
    ∷ ("T1574", "Persistence" ∷ "Privilege Escalation" ∷ "Defense Evasion" ∷ [])
    ∷ ("T1574.002", "Persistence" ∷ "Privilege Escalation" ∷ "Defense Evasion" ∷ [])
    ∷ []

abbrev pub service_labels : List (String × String)
service_labels =
    ("security", "Winlogbeat (Windows Security)")
    ∷ ("system", "Winlogbeat (Windows System)")
    ∷ ("wmi", "Winlogbeat (WMI-Activity/Operational)")
    ∷ ("powershell", "Winlogbeat (PowerShell/Operational)")
    ∷ []

abbrev pub zeek_service_labels : List (String × String)
zeek_service_labels = ("notice", "Zeek notice.log") ∷ ("files", "Zeek files.log") ∷ []

abbrev pub linux_service_labels : List (String × String)
linux_service_labels = ("auth", "Filebeat (Linux auth.log)") ∷ []

-- BACKLOG_TACTICS
abbrev pub backlog_tactics : List String
backlog_tactics = "Collection" ∷ "Exfiltration" ∷ "Command and Control" ∷ "Lateral Movement" ∷ []
