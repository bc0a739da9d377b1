-- ===== src/Tenant.antt =====
-- Tenant slugs: `safe_tenant` of scripts/hive-mind-broker/app.py and of
-- scripts/setup/ai_agent/agent.py, and `_validate_tenant_id` of
-- scripts/setup/ai_agent/checkpoints.py. The argument of `safe_tenant` is the text
-- `str(value or "")`.
pub mod Slug
use Prim.Native.Char.{code}
use Prim.Native.String.{[], ◌∷◌}
use suburban_soc.Base.{
  ℕ, suc, String, Bool, false, ◌&&◌, ◌||◌, Option, none, some, leb, ◌==◌, nat_eq, string_eq,
  if◌then◌else◌, refl, ◌≡◌,
}
use suburban_soc.Base.Text.{in_range, strip, lower}

-- `[a-z0-9]` and `[a-z0-9-]`
pub is_slug_head : ℕ → Bool
is_slug_head n = in_range b'a' b'z' n || in_range b'0' b'9' n

unfoldable pub is_slug_char : ℕ → Bool
unfolding is_slug_head
is_slug_char n = is_slug_head n || n == b'-'

-- The characters of a tail, counted, or none if one is not `[a-z0-9-]`.
pub slug_tail : String → Option ℕ
unfolding is_slug_char
slug_tail [] = some 0
slug_tail (c ∷ s) = elim (slug_tail s) [
  | none ↦ none
  | some n ↦ if is_slug_char (code c) then some (suc n) else none
]

pub tail_fits : Option ℕ → Bool
tail_fits none = false
tail_fits (some n) = leb 1 n && leb n 38

-- `_TENANT_RE`, `^[a-z0-9][a-z0-9-]{1,38}$`, on a text that does not end in a newline
unfoldable pub matches_tenant_re : String → Bool
unfolding slug_tail tail_fits
matches_tenant_re [] = false
matches_tenant_re (c ∷ s) = is_slug_head (code c) && tail_fits (slug_tail s)

unfoldable pub safe_tenant : String → String
safe_tenant value = let v = lower (strip value) in if matches_tenant_re v then v else "unassigned"

-- `re.match` with `$` also takes a text with one newline behind the slug.
drop_newline : String → String
drop_newline [] = []
drop_newline (c ∷ []) = if code c == 10 then [] else c ∷ []
drop_newline (c ∷ d ∷ s) = c ∷ drop_newline (d ∷ s)

-- none is the `ValueError`
unfoldable pub validate_tenant_id : Bool → String → Option String
unfolding drop_newline
validate_tenant_id allow_wildcard tenant_id =
    if allow_wildcard && tenant_id == "*"
    then some tenant_id
    else if matches_tenant_re (drop_newline tenant_id)
    then some tenant_id
    else none

valid_tenants :
    (safe_tenant " Acme-42 " ≡ "acme-42")
    × (safe_tenant "a,b" ≡ "unassigned")
    × (safe_tenant "*" ≡ "unassigned")
unfolding safe_tenant matches_tenant_re strip lower
valid_tenants = (refl, refl, refl)
