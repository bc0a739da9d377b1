-- ===== src/Tests/Weekly.antt =====
-- A weekly report of three alerts, with two older reports on disk.
use suburban_soc.Base.Http.{lost, replied}
use suburban_soc.Weekly.Metrics.{
  tag_to_nist, function_of, ahead, behind, Clock, Source, samples, fetch_and_calculate_metrics,
}
use suburban_soc.Weekly.Metrics.Counts.{tally}
use suburban_soc.Weekly.Reports.{Report, prune_old_reports}
use suburban_soc.Weekly.Reports.Newest.{Outlives, prune_keeps_newest}
use suburban_soc.Weekly.Deliver.{
  Config, World, is_hosted, send_to_slack, generate_executive_summary, run_reporting_pipeline,
}
use suburban_soc.Weekly.Deliver.Published.{WasPublished, delivered-WasPublished}
use suburban_soc.Weekly.Deliver.Asked.{asks}
use suburban_soc.Base.{
  ℕ, ◌+◌, ◌-◌, ◌≤◌, String, ◌≡◌, refl, ◌⊎◌, true, false, not, Option, none, some, List, [], ◌∷◌,
  ltb, ◌==◌, nat_eq, string_eq, if◌then◌else◌, length, count, All,
}
use suburban_soc.Base.Text.{strip, has_text}

abbrev labels : List String
labels = "NIST:Detect" ∷ " nist:respond " ∷ "NIST:Govern" ∷ "mitre:T1110" ∷ []

labelled : tag_to_nist labels ≡ "Detect" ∷ "Respond" ∷ []
unfolding tag_to_nist strip
labelled = refl

-- A clock that reads two texts, ten minutes apart.
abbrev read_clock : String → Option ℕ
read_clock text =
    if text == "09:00" then some 0 else if text == "09:10" then some 600_000_000 else none

abbrev clock : Clock
clock = record {
  Time = ℕ;
  fromisoformat = read_clock;
  minus = λ a b. some (if ltb a b then behind (b - a) else ahead (a - b));
}

abbrev alert_of : String → String → Source
alert_of event start = record { timestamp = some event; alert_start = some start; tags = labels }

abbrev hits : List Source
hits = alert_of "09:00" "09:10" ∷ alert_of "09:10" "09:00" ∷ alert_of "?" "09:10" ∷ []

measured :
    ((fetch_and_calculate_metrics clock (some hits)).average_mttd_minutes ≡ 1000)
    × (tally "Detect" hits ≡ 3)
    × (samples clock hits ≡ 600_000_000 ∷ [])
unfolding fetch_and_calculate_metrics samples function_of strip
measured = (refl, refl, refl)

abbrev report_at : String → ℕ → Report
report_at name mtime = record { name = name; mtime = mtime }

abbrev directory : List Report
directory = report_at "old" 10 ∷ report_at "new" 30 ∷ report_at "middle" 20 ∷ []

pruned : prune_old_reports (λ r. true) directory 2 ≡ record {
  deleted = report_at "old" 10 ∷ [];
  left = report_at "new" 30 ∷ report_at "middle" 20 ∷ [];
}
unfolding prune_old_reports
pruned = refl

prune_keeps_newest_example :
    (count (λ r. r.mtime == 10) (prune_old_reports (λ r. true) directory 2).deleted
        + count (λ r. r.mtime == 10) (prune_old_reports (λ r. true) directory 2).left
      ≡ count (λ r. r.mtime == 10) directory)
    × (length (prune_old_reports (λ r. true) directory 2).left
        ≤ 2 + count (λ r. not true) directory)
    × ((2 ≤ length (prune_old_reports (λ r. true) directory 2).left)
        ⊎ ((prune_old_reports (λ r. true) directory 2).deleted ≡ []))
    × All
        (λ d. All (Outlives (λ r. true) d) (prune_old_reports (λ r. true) directory 2).left)
        (prune_old_reports (λ r. true) directory 2).deleted
prune_keeps_newest_example = prune_keeps_newest (λ r. true) (λ r. r.mtime == 10) directory 2

abbrev config : Config
config = record {
  llm_api_url = "https://api.openai.com/v1/chat/completions";
  llm_allow_hosted = false;
  slack_token = "xoxb";
  slack_channel = "C042";
  pdf_retention_count = 2;
}

abbrev world : World
world = record {
  search = some hits;
  completion = lost;
  written = some (report_at "week" 40);
  glob = λ r. r ∷ directory;
  unlinks = λ r. true;
  ticket =
      replied 200
        (some (record { is_ok = true; upload_url = some "https://files"; file_id = some "F1" }));
  upload = replied 201 none;
  complete = replied 200 (some true);
}

delivered-WasPublished_example :
    WasPublished config world "week" (send_to_slack config world "week")
unfolding send_to_slack
delivered-WasPublished_example = delivered-WasPublished config world "week" refl

not_asked : count asks (run_reporting_pipeline clock config world).sent ≡ 0
unfolding is_hosted has_text run_reporting_pipeline send_to_slack generate_executive_summary
not_asked = refl
