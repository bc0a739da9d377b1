-- ===== src/Prune.antt =====
-- What scripts/setup/ai_agent/compact_threat_intel.py and compact_agent_checkpoints.py share: their
-- requests to Elasticsearch, what a request comes to, and the exceptions that they tell apart.
pub mod Wait
pub mod Intel
pub mod Checkpoints
pub use suburban_soc.Base.Http.{Answer, lost, replied}
use suburban_soc.Base.{
  ℕ, zero, suc, ◌+◌, String, ◌≡◌, refl, Bool, true, false, ◌&&◌, Option, none, some, List, [], ◌∷◌,
  ◌++◌, ltb, leb, if◌then◌else◌,
}

-- Why a RuntimeError is raised.
pub data Reason : Type 0 where
  task_failed unconfirmed unknown still_running too_many no_task unclean several : Reason

-- The exceptions by the class that the handlers tell apart: ValueError, the JSON error of requests,
-- TypeError, requests.HTTPError with its status, any other RequestException, and RuntimeError. `hung`
-- is a run that never ends.
pub data Raised : Type 0 where
  value_error not_json type_error connection hung : Raised
  http : ℕ → Raised
  runtime : Reason → Raised

pub data Result {ℓ} (A : Type ℓ) : Type ℓ where
  ok : A → Result A
  raised : Raised → Result A

-- `raise_for_status` and `json`
abbrev pub is_error_status : ℕ → Bool
is_error_status s = leb 400 s && ltb s 600

abbrev pub decoded {ℓ} : {B : Type ℓ} → Option B → Result B
decoded none = raised not_json
decoded (some b) = ok b

abbrev pub checked {ℓ} : {B : Type ℓ} → Answer B → Result B
checked lost = raised connection
checked (replied s b) = if is_error_status s then raised (http s) else decoded b

-- A clause of a query's filter.
pub data Clause : Type 0 where
  match_all : Clause
  exists : String → Clause
  terms : String → List String → Clause
  -- `range` with `lt: now-<days>d`
  older : String → ℕ → Clause

pub data Request : Type 0 where
  count_docs : String → List Clause → Request
  delete_docs : String → List Clause → Request

abbrev pub is_delete : Request → Bool
is_delete (count_docs i q) = false
is_delete (delete_docs i q) = true

-- What was sent so far, and the value or the exception.
abbrev pub Run {ℓ} : Type ℓ → Type ℓ
Run A = List Request × Result A

abbrev pub after_sent {ℓ} : {B : Type ℓ} → List Request → Run B → Run B
after_sent log (more, r) = (log ++ more, r)

infixl 5 ◌>>=◌ ◌>>◌
abbrev pub ◌>>=◌ {ℓ κ} : {A : Type ℓ} {B : Type κ} → Run A → (A → Run B) → Run B
(log, ok a) >>= f = after_sent log (f a)
(log, raised e) >>= f = (log, raised e)

abbrev pub ◌>>◌ {ℓ} : {B : Type ℓ} → Run (Unit {0}) → Run B → Run B
m >> k = m >>= λ _. k

abbrev pub pure {ℓ} : {A : Type ℓ} → A → Run A
pure a = ([], ok a)

abbrev pub throw {ℓ} : {A : Type ℓ} → Raised → Run A
throw e = ([], raised e)

abbrev pub send {ℓ} : {B : Type ℓ} → Request → Answer B → Run B
send q a = (q ∷ [], checked a)

abbrev pub unless : Bool → Raised → Run (Unit {0})
unless true e = throw e
unless false e = pure tt

-- A value for a number of days: a positive integer, or anything else that a caller may pass.
pub data Days : Type 0 where
  days : ℕ → Days
  no_integer : Days

abbrev pub positive : Days → Run ℕ
positive (days zero) = throw value_error
positive (days (suc n)) = pure (suc n)
positive no_integer = throw value_error

-- The report of a finished `_delete_by_query`; of `failures` the model keeps the number.
pub record Report : Type 0 where
  pub deleted : ℕ
  pub timed_out : Bool
  pub failures : ℕ

-- A document of `GET _tasks/<id>`.
pub record Task : Type 0 where
  pub completed : Bool
  pub has_error : Bool
  pub response : Option Report

-- The waiting for a task: the answer to a poll by the time at which it comes, and how long each
-- poll takes, in the ticks of the monotonic clock.
pub record Polls : Type 0 where
  pub answers : ℕ → Answer Task
  pub took : ℕ → ℕ

-- The two settings, in ticks.
pub record Patience : Type 0 where
  pub timeout : ℕ
  pub interval : ℕ

-- RequestException and RuntimeError are caught by `compact`; `ValueError` is not.
abbrev pub is_caught : Raised → Bool
is_caught value_error = false
is_caught type_error = false
is_caught hung = false
is_caught e = true

-- An exception, if there is one, is one that `compact` catches.
abbrev pub Caught {ℓ} : {A : Type ℓ} → Result A → Type 0
Caught (ok a) = Unit
Caught (raised e) = is_caught e ≡ true

pub Caught->>= {ℓ κ} :
    {A : Type ℓ} {B : Type κ} (m : Run B) (f : B → Run A)
    → Caught m.1
    → ((b : B) → Caught (f b).1)
    → Caught (m >>= f).1
Caught->>= (log, ok b) f hm hf = hf b
Caught->>= (log, raised e) f hm hf = hm

decoded-Caught {ℓ} :
    {B : Type ℓ} (failed : Bool) (s : ℕ) (b : Option B)
    → Caught (if failed then raised (http s) else decoded b)
decoded-Caught true s b = refl
decoded-Caught false s none = refl
decoded-Caught false s (some b) = tt

pub checked-Caught {ℓ} : {B : Type ℓ} (a : Answer B) → Caught (checked a)
checked-Caught lost = refl
checked-Caught (replied s b) = decoded-Caught (is_error_status s) s b
