-- ===== src/Slo.antt =====
-- scripts/setup/ai_agent/slo_metrics.py: the service levels of the SOC, measured from what
-- Elasticsearch and Kibana answer. Values are in thousandths, and times in milliseconds; a quotient
-- is exact and rounded half to even, where Python divides floats.
pub mod Counts
pub mod Ages
pub mod Claims
pub mod Intel
pub mod Access
pub mod Report
use suburban_soc.Base.{
  ℕ, ◌+◌, ◌-◌, ◌*◌, String, ◌≡◌, refl, Bool, ◌||◌, Option, none, some, List, ltb, leb, ◌==◌, nat_eq,
  string_eq, if◌then◌else◌,
}
use Prim.Native.Nat.{◌/◌, ◌%◌}
use suburban_soc.Base.Http.{Answer, lost, replied}

-- A measurement, or the exception MetricUnavailable.
pub data Measured {ℓ} (A : Type ℓ) : Type ℓ where
  measured : A → Measured A
  unavailable : Measured A

infixl 5 ◌>>=◌
abbrev pub ◌>>=◌ {ℓ κ} : {A : Type ℓ} {B : Type κ} → Measured A → (A → Measured B) → Measured B
measured a >>= f = f a
unavailable >>= f = unavailable

-- `negsuc n` is -(n + 1).
pub data ℤ : Type 0 where
  pos : ℕ → ℤ
  negsuc : ℕ → ℤ

-- a - b
abbrev pub sub_ℕ : ℕ → ℕ → ℤ
sub_ℕ a b = if leb b a then pos (a - b) else negsuc (b - a - 1)

-- What a metric returns: nothing to measure, a number, or the parts of the alert volume.
pub record Volume : Type 0 where
  pub zeek_notices : ℕ
  pub rule_hits : ℕ
  pub distinct_sources : ℕ
  pub value : ℕ

pub data Reading : Type 0 where
  no_data : Reading
  number : ℤ → Reading
  volume : Volume → Reading

-- a / b, rounded half to even
abbrev pub half_even : (quotient rest b : ℕ) → ℕ
half_even q r b = if ltb (2 * r) b then q else if ltb b (2 * r) || (q % 2) == 1 then q + 1 else q

unfoldable pub rounded : ℕ → ℕ → ℕ
rounded a b = half_even (a / b) (a % b) b

-- `round(a / b, 2)`, `round(a / b, 3)` and `round(a / b, 1)`, in thousandths
abbrev pub round_2 : ℕ → ℕ → ℕ
round_2 a b = 10 * rounded (100 * a) b

abbrev pub round_3 : ℕ → ℕ → ℕ
round_3 a b = rounded (1000 * a) b

-- A clause of a filter; a date is a text of date arithmetic, such as `now-7d`.
pub data Clause : Type 0 where
  match_all : Clause
  since until term wildcard : String → String → Clause
  terms : String → List String → Clause
  exists : String → Clause

-- A document by its index and its id.
pub record DocRef : Type 0 where
  pub index : String
  pub id : String

-- One row of the answer to `_mget`.
pub data Got : Type 0 where
  found missing errored : Got

-- A row of a search without its source: its id and its index, or none where the row lacks one.
pub record Row : Type 0 where
  pub row_id : Option String
  pub row_index : Option String

-- An entry of a stored snapshot: both fields and no other, texts both, or anything else.
pub data Entry : Type 0 where
  entry : DocRef → Entry
  malformed : Entry

-- A stored count: a number that is not negative, or anything else that JSON allows.
pub data Stored : Type 0 where
  stored : ℕ → Stored
  absent other : Stored

pub record Cardinality : Type 0 where
  pub failed_shards : ℕ
  pub distinct : ℕ

pub record Privileges : Type 0 where
  pub has_all_requested : Bool

-- What Elasticsearch answers, by request.
pub record Cluster : Type 0 where
  -- `_count`, strict about missing indices or not
  pub counted : (index : String) (strict : Bool) → List Clause → Answer (Option ℕ)
  pub cardinality : (index : String) → List Clause → (field : String) → Answer Cardinality
  pub has_privileges : List String → Answer Privileges
  -- the newest document's timestamp, if there is a document; `none` is one that is not read
  pub newest : (index : String) → List Clause → Answer (List (Option ℕ))
  -- searches without the source, ascending by timestamp or not, with a size
  pub searched : (ascending : Bool) (size : ℕ) → List Clause → Answer (List Row)
  pub mget : List DocRef → Answer (List Got)
  -- the newest sample with a snapshot, and the newest one with a count, within an age
  pub prior_snapshot : (age : String) → Answer (List (List Entry))
  pub prior_count : (age : String) → Answer (List Stored)
  pub heartbeat : Answer (List Stored)
  -- alerts, as their start and their original time; `none` is one that is not read
  pub alerts : List Clause → Answer (List (Option (ℕ × ℕ)))
  -- the mean latency in thousandths of a second, and the maximal loss
  pub mean_latency : List Clause → Answer (Option ℕ)
  pub max_loss : List Clause → Answer (Option ℕ)
  pub now : ℕ

-- `r.status_code != 200`, a lost answer and a body that is not JSON: all the same exception.
unfoldable pub read_ok {ℓ} : {B : Type ℓ} → Answer B → Measured B
read_ok lost = unavailable
read_ok (replied s none) = unavailable
read_ok (replied s (some b)) = if s == 200 then measured b else unavailable

-- The status is not looked at.
unfoldable pub read_any {ℓ} : {B : Type ℓ} → Answer B → Measured B
read_any lost = unavailable
read_any (replied s none) = unavailable
read_any (replied s (some b)) = measured b

rounds : (rounded 5 2 ≡ 2) × (rounded 7 2 ≡ 4) × (rounded 8 3 ≡ 3) × (round_3 1 3 ≡ 333)
unfolding rounded
rounds = (refl, refl, refl, refl)
