-- ===== src/Tests/Intake.antt =====
-- A critical alert on an address that is not excluded, with nobody to approve it yet.
use suburban_soc.Base.{ℕ, String, Bool, true, ◌&&◌, Option, none, some, leb, nat_eq, string_eq}
use suburban_soc.Agent.Suppress.{status}
use suburban_soc.Agent.Isolation.{known}
use suburban_soc.Agent.Intake.Perceive.{str_value, Alert, perceive}
use suburban_soc.Agent.Intake.{World, run}
use suburban_soc.Agent.Intake.Acts.{Shows, id_of}
use suburban_soc.Agent.Intake.Alone.{is_isolated_alone, is_drafted_for, is_told_for, run-Shows}
use suburban_soc.Tests.Fixtures.{addresses}
use suburban_soc.Tests.Broker.{list}

abbrev alert : Option Alert
alert = some (record {
  tenant_id = "acme";
  source_ip = "6.6.6.6";
  source_mac = "";
  severity = some (str_value "critical");
  technique = "T1110";
})

abbrev world : World
world = record {
  now = 700;
  duplicate = none;
  window = status 404;
  window_written = true;
  case_id = some "c1";
  queue_writable = true;
  exclusions = list;
  broker = known true;
}

abbrev digest : String → String
digest text = text

abbrev is_digit : ℕ → Bool
is_digit n = leb 48 n && leb n 57

run-Shows_example :
    let ctx = perceive addresses digest is_digit "2" alert in
    Shows
      (id_of ctx)
      (is_isolated_alone addresses true world ctx)
      (is_drafted_for addresses true world ctx)
      (is_told_for addresses true world ctx)
      (run addresses true digest is_digit world "2" alert)
run-Shows_example = run-Shows addresses true digest is_digit world "2" alert
