-- ===== src/Broker/Inventory.antt =====
-- The router inventory of scripts/hive-mind-broker/inventory.py, after `yaml.safe_load`.
use suburban_soc.Base.{
  String, ◌≡◌, ◌≢◌, inl, inr, Bool, true, false, Option, none, some, List, [], ◌∷◌, arith, ◌==◌,
  nat_eq, string_eq, ne_of_beq, All-mono, if◌then◌else◌, Bool-cases, Option-cases, select, All,
}
use text.Mathlib.TextEquality.{eq_iff}

-- A value of a router's entry: a text, or anything else that YAML can hold.
pub data Yaml : Type 0 where
  str : String → Yaml
  other : Yaml

-- One `dict` of the inventory, by the keys that the broker reads.
pub record Router : Type 0 where
  pub tenant : Option Yaml
  pub ip_address : Option Yaml
  pub username : Option Yaml
  pub ssh_key_path : Option Yaml

-- `r.get("tenant") == tenant`
pub belongs_to : String → Router → Bool
belongs_to tenant r = elim r.tenant [
  | none ↦ false
  | some v ↦ elim v [ str t ↦ t == tenant | other ↦ false ]
]

unfoldable pub get_routers_for_tenant : List Router → String → List Router
unfolding belongs_to
get_routers_for_tenant routers tenant =
    if tenant == "" then [] else select (belongs_to tenant) routers

-- The file as `load` finds it: absent, without a `routers` key, or with a list.
unfoldable pub load : Option (Option (List Router)) → List Router
load none = []
load (some none) = []
load (some (some routers)) = routers

belongs_to_tenant :
    (tenant : String) (r : Router) → belongs_to tenant r ≡ true → r.tenant ≡ some (str tenant)
unfolding belongs_to
belongs_to_tenant tenant r h = elim (Option-cases r.tenant) [
  | inl absent ↦ ground (arith, absent)
  | inr (str t, e) ↦ ground (arith, e, eq_iff t tenant)
  | inr (other, e) ↦ ground (arith, e)
]

select-belongs :
    (tenant : String) (routers : List Router)
    → All (λ r. r.tenant ≡ some (str tenant)) (select (belongs_to tenant) routers)
select-belongs tenant [] = tt
select-belongs tenant (r ∷ rs) = elim (Bool-cases (belongs_to tenant r)) [
  | inl mine ↦ rw mine (belongs_to_tenant tenant r mine, select-belongs tenant rs)
  | inr foreign ↦ rw foreign (select-belongs tenant rs)
]

-- Tenant isolation: every router that is selected carries the tenant, and none is selected for the
-- empty tenant.
pub get_routers_for_tenant_isolates :
    (routers : List Router) (tenant : String)
    → All
        (λ r. (r.tenant ≡ some (str tenant)) × (tenant ≢ ""))
        (get_routers_for_tenant routers tenant)
unfolding get_routers_for_tenant
get_routers_for_tenant_isolates routers tenant = elim (Bool-cases (tenant == "")) [
  | inl empty ↦ rw empty tt
  | inr named ↦
      rw named (All-mono (λ r e. (e, ne_of_beq tenant "" named)) _ (select-belongs tenant routers))
]
