-- ===== src/Tenant/Slug.antt =====
-- Sanitised tenants, and the two layers that check them.
use Prim.Native.Char.{Char, code}
use Prim.Native.String.{[], ◌∷◌}
use suburban_soc.Base.{
  ℕ, suc, String, Bool, true, false, ◌&&◌, some, ◌==◌, nat_eq, string_eq, ◌≡◌, refl, arith, ap,
  Bool-cases, inl, inr, ◌∙◌, Option-cases,
}
use suburban_soc.Base.Text.{strip, lower, is_space, lstrip, rstrip, lower_char}
use suburban_soc.Tenant.{
  is_slug_char, slug_tail, matches_tenant_re, safe_tenant, validate_tenant_id, drop_newline,
}

-- A character of a slug is neither changed by `lower` nor removed by `strip`.
lower-slug_char : (c : Char) → is_slug_char (code c) ≡ true → lower_char c ≡ c
unfolding is_slug_char lower_char
lower-slug_char c h = ground arith

not-space-slug_char : (n : ℕ) → is_slug_char n ≡ true → is_space n ≡ false
unfolding is_slug_char is_space
not-space-slug_char n h = ground arith

not-newline-slug_char : (n : ℕ) → is_slug_char n ≡ true → (n == 10) ≡ false
unfolding is_slug_char
not-newline-slug_char n h = ground arith

-- The head of a tail is a character of a slug, and so is its tail a tail.
pub slug_tail-cons :
    (c : Char) (s : String) (n : ℕ)
    → slug_tail (c ∷ s) ≡ some n
    → (is_slug_char (code c) ≡ true) × ((m : ℕ) × (slug_tail s ≡ some m))
unfolding slug_tail
slug_tail-cons c s n h = ground arith

lower-tail : (s : String) (n : ℕ) → slug_tail s ≡ some n → lower s ≡ s
unfolding lower
lower-tail [] n h = refl
lower-tail (c ∷ s) n h =
    let (head, rest) = slug_tail-cons c s n h in
    let (m, tail) = rest in cc (lower-slug_char c head, lower-tail s m tail)

rstrip-tail : (s : String) (n : ℕ) → slug_tail s ≡ some n → rstrip s ≡ s
unfolding rstrip
rstrip-tail [] n h = refl
rstrip-tail (c ∷ []) n h =
    let (head, rest) = slug_tail-cons c [] n h in rw (not-space-slug_char (code c) head)
rstrip-tail (c ∷ d ∷ s) n h =
    let (head, rest) = slug_tail-cons c (d ∷ s) n h in
    let (m, tail) = rest in rw (rstrip-tail (d ∷ s) m tail) refl

drop_newline-tail : (s : String) (n : ℕ) → slug_tail s ≡ some n → drop_newline s ≡ s
unfolding drop_newline
drop_newline-tail [] n h = refl
drop_newline-tail (c ∷ []) n h =
    let (head, rest) = slug_tail-cons c [] n h in rw (not-newline-slug_char (code c) head)
drop_newline-tail (c ∷ d ∷ s) n h =
    let (head, rest) = slug_tail-cons c (d ∷ s) n h in
    let (m, tail) = rest in ap (λ r. c ∷ r) (drop_newline-tail (d ∷ s) m tail)

-- A slug is a tail, one character longer.
pub slug-tail : (s : String) → matches_tenant_re s ≡ true → (n : ℕ) × (slug_tail s ≡ some n)
unfolding matches_tenant_re is_slug_char slug_tail
slug-tail [] h = cc
slug-tail (c ∷ s) h = elim (Option-cases (slug_tail s)) [
  | inl none_left ↦ absurd (ground (arith, none_left))
  | inr (m, e) ↦ (suc m, ground (arith, e))
]

lstrip-tail : (s : String) (n : ℕ) → slug_tail s ≡ some n → lstrip s ≡ s
unfolding lstrip
lstrip-tail [] n h = refl
lstrip-tail (c ∷ s) n h =
    let (head, rest) = slug_tail-cons c s n h in rw (not-space-slug_char (code c) head)

strip-tail : (s : String) (n : ℕ) → slug_tail s ≡ some n → strip s ≡ s
unfolding strip
strip-tail s n h = ap lstrip (rstrip-tail s n h) ∙ lstrip-tail s n h

-- Whatever the caller sent, the tenant is a slug: 2 to 39 characters of `[a-z0-9-]`, with no `-` in
-- front, so no `,` or `*` reaches an index name.
pub safe_tenant-matches : (value : String) → matches_tenant_re (safe_tenant value) ≡ true
unfolding safe_tenant matches_tenant_re
safe_tenant-matches value = elim (Bool-cases (matches_tenant_re (lower (strip value)))) [
  | inl fits ↦ rw fits fits
  | inr other ↦ rw other refl
]

safe_tenant-slug : (s : String) → matches_tenant_re s ≡ true → safe_tenant s ≡ s
unfolding safe_tenant
safe_tenant-slug s h =
    let (n, tail) = slug-tail s h in rw (strip-tail s n tail, lower-tail s n tail, h)

-- Sanitising twice is sanitising once.
pub safe_tenant_idem : (value : String) → safe_tenant (safe_tenant value) ≡ safe_tenant value
safe_tenant_idem value = safe_tenant-slug (safe_tenant value) (safe_tenant-matches value)

-- A tenant that one layer has sanitised is never refused by the other, wildcard allowed or not.
pub validate_tenant_id-safe_tenant :
    (wild : Bool) (value : String)
    → validate_tenant_id wild (safe_tenant value) ≡ some (safe_tenant value)
unfolding validate_tenant_id
validate_tenant_id-safe_tenant wild value =
    let slug = safe_tenant-matches value in
    let (n, tail) = slug-tail (safe_tenant value) slug in
    rw (drop_newline-tail (safe_tenant value) n tail, slug)
      (elim (Bool-cases (wild && safe_tenant value == "*")) [
        | inl e ↦ rw e refl
        | inr e ↦ rw e refl
      ])
