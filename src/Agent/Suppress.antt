-- ===== src/Agent/Suppress.antt =====
-- `should_suppress_technique` of scripts/setup/ai_agent/checkpoints.py: the suppression window of a
-- host and a technique. Time counts in ticks of the clock, and a window's document is the one that
-- its host and technique name.
pub mod Window
use suburban_soc.Base.{
  ℕ, suc, ◌+◌, String, Bool, true, false, not, ◌&&◌, ◌||◌, Option, none, some, ltb, leb, ◌==◌,
  nat_eq, string_eq, if◌then◌else◌,
}

-- The fields of a stored document that the function reads; none is a key that is missing.
pub record Document : Type 0 where
  pub last_seen : Option ℕ
  pub first_seen : Option ℕ
  pub suppressed_count : Option ℕ
  pub max_severity : Option String

-- An alert to judge, and the second of `time.time()`.
pub record Firing : Type 0 where
  pub host : String
  pub technique : String
  pub severity : String
  pub now : ℕ

-- The answer to the GET: a document, or another status.
pub data Answer : Type 0 where
  found : Document → Answer
  status : ℕ → Answer

-- The function returns a Boolean or raises; `written` is the document of its PUT.
pub record Judged : Type 0 where
  pub returned : Option Bool
  pub written : Option Document

abbrev pub get_or {ℓ} : {A : Type ℓ} → Option A → A → A
get_or none default = default
get_or (some a) default = a

-- `raise_for_status`
abbrev raises : ℕ → Bool
raises code = leb 400 code && ltb code 600

module _ (window_seconds max_duration_seconds : ℕ) where
  -- `now - last_seen < window_seconds` on integers, which also holds when the clock went back.
  unfoldable pub is_suppressed : Document → Firing → Bool
  is_suppressed src f =
      let escalated = f.severity == "critical" && not (get_or src.max_severity "" == "critical") in
      ltb f.now (get_or src.last_seen 0 + window_seconds)
      && (ltb f.now (get_or src.first_seen f.now + max_duration_seconds) && not escalated)

  -- The document of a burst that starts with this firing.
  abbrev pub fresh : Firing → Document
  fresh f = record {
    last_seen = some f.now;
    first_seen = some f.now;
    suppressed_count = some 0;
    max_severity = some f.severity;
  }

  abbrev pub continued : Document → Firing → Document
  continued src f = record {
    last_seen = some f.now;
    first_seen = some (get_or src.first_seen f.now);
    suppressed_count = some (suc (get_or src.suppressed_count 0));
    max_severity = some (get_or src.max_severity "");
  }

  abbrev put : Bool → Bool → Document → Judged
  put put_succeeds suppress document = record {
    returned = if put_succeeds then some suppress else none;
    written = some document;
  }

  answered : Firing → Answer → Bool → Judged
  unfolding is_suppressed
  answered f (found src) put_succeeds =
      if is_suppressed src f
      then put put_succeeds true (continued src f)
      else put put_succeeds false (fresh f)
  answered f (status code) put_succeeds =
      if not (code == 404) && raises code
      then record { returned = none; written = none }
      else put put_succeeds false (fresh f)

  -- The answer of the GET and whether the PUT succeeds are arguments.
  unfoldable pub should_suppress_technique : Firing → Answer → (put_succeeds : Bool) → Judged
  unfolding answered
  should_suppress_technique f answer put_succeeds =
      if f.host == "" || f.technique == ""
      then record { returned = some false; written = none }
      else answered f answer put_succeeds
