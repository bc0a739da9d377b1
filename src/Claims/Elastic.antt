-- ===== src/Claims/Elastic.antt =====
-- Elasticsearch, as far as the claim document of one alert goes. It is not code of the repository:
-- its state and its requests are parameters, with what its documentation says of each answer.
use suburban_soc.Base.{ℕ, ◌≤◌, ◌<◌, String, ◌≡◌, ◌⊎◌, Option, none, some}

-- CLAIMED, RELEASED, RESOLVED
pub data Phase : Type 0 where
  claimed released resolved : Phase

-- What the manual recovery writes onto a claim.
pub record Resolution : Type 0 where
  pub resolved_by : String
  pub resolved_at : ℕ
  pub resolution_reason : Option String
  pub resolution_actor_claimed : String

pub record Claim : Type 0 where
  pub phase : Phase
  pub approver : String
  pub timestamp : ℕ
  pub resolution : Option Resolution

pub record Version : Type 0 where
  pub seq_no : ℕ
  pub primary_term : ℕ

pub record Stored : Type 0 where
  pub claim : Claim
  pub version : Version

-- A status as the code tells them apart: below 400, 409, 404, and everything else, which
-- `raise_for_status` or the request itself raises on: an answer that is lost on its way included.
pub data Status : Type 0 where
  success conflict missing failed : Status

pub data Got : Type 0 where
  found : Stored → Got
  absent unread : Got

-- A partial update: what it writes over, and the version that it is conditional on.
pub record Update : Type 0 where
  pub phase : Phase
  pub resolution : Option Resolution
  pub only_if : Option Version

abbrev pub updated : Update → Claim → Claim
updated u c = record c {
  phase = u.phase;
  resolution = elim u.resolution [ none ↦ c.resolution | some r ↦ some r ];
}

module _ {State : Type 0} (doc : State → Option Stored) (clock : State → ℕ) (stamp : Version → ℕ)
    (s s' : State) where
  pub record Same : Type 0 where
    pub same_doc : doc s' ≡ doc s
    pub same_clock : clock s ≤ clock s'

  -- A write gets a version that no earlier write had.
  pub record Wrote (c : Claim) : Type 0 where
    pub version : Version
    pub now_holds : doc s' ≡ some (record { claim = c; version = version })
    pub fresh : clock s < stamp version
    pub known : stamp version ≤ clock s'

  -- `PUT _create`: an id is created once.
  abbrev pub CreateLaw : Status → Claim → Type 0
  CreateLaw success c = (doc s ≡ none) × Wrote c
  CreateLaw conflict c = Same
  CreateLaw missing c = Same
  CreateLaw failed c = Same ⊎ ((doc s ≡ none) × Wrote c)

  abbrev pub Replaced : Version → Claim → Type 0
  Replaced v c = (old : Claim) × (doc s ≡ some (record { claim = old; version = v })) × Wrote c

  -- `PUT _doc?if_seq_no&if_primary_term`: nothing is written unless the version is current.
  abbrev pub PutLaw : Status → Version → Claim → Type 0
  PutLaw success v c = Replaced v c
  PutLaw conflict v c = Same
  PutLaw missing v c = Same
  PutLaw failed v c = Same ⊎ Replaced v c

  abbrev pub Met : Option Version → Version → Type 0
  Met none v = Unit
  Met (some n) v = n ≡ v

  abbrev pub Merged : Update → Type 0
  Merged u =
      (old : Stored) × (doc s ≡ some old) × Met u.only_if old.version × Wrote (updated u old.claim)

  -- `POST _update`
  abbrev pub UpdateLaw : Status → Update → Type 0
  UpdateLaw success u = Merged u
  UpdateLaw conflict u = Same
  UpdateLaw missing u = Same
  UpdateLaw failed u = Same ⊎ Merged u

  abbrev pub GetLaw : Got → Type 0
  GetLaw (found v) = Same × (doc s ≡ some v)
  GetLaw absent = Same
  GetLaw unread = Same

-- The service: which answers and which next states are possible. `stamp` orders versions by the
-- write that they were given to.
pub record Elastic : Type 1 where
  pub State : Type 0
  pub doc : State → Option Stored
  pub clock : State → ℕ
  pub stamp : Version → ℕ
  pub Create : Claim → State → Status → State → Type 0
  pub Put : Version → Claim → State → Status → State → Type 0
  pub Post : Update → State → Status → State → Type 0
  pub Get : State → Got → State → Type 0
  pub create_law :
      (c : Claim) (s s' : State) (r : Status) → Create c s r s' → CreateLaw doc clock stamp s s' r c
  pub put_law :
      (v : Version) (c : Claim) (s s' : State) (r : Status)
      → Put v c s r s'
      → PutLaw doc clock stamp s s' r v c
  pub post_law :
      (u : Update) (s s' : State) (r : Status) → Post u s r s' → UpdateLaw doc clock stamp s s' r u
  pub get_law : (s s' : State) (g : Got) → Get s g s' → GetLaw doc clock stamp s s' g
