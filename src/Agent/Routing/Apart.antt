-- ===== src/Agent/Routing/Apart.antt =====
-- Two tenants never share a variable, so neither is pushed to what was set up for the other.
use Prim.Native.Char.{Char, code}
use Prim.Native.String.{[], ◌∷◌, ◌++◌}
use suburban_soc.Tenant.Slug.{slug_tail-cons, slug-tail}
use suburban_soc.Base.Text.{nth, in_range}
use text.Mathlib.TextLemmas.{append_cancel_left}
use text.Mathlib.TextEquality.{Char-path}
use suburban_soc.Tenant.{is_slug_char, slug_tail, matches_tenant_re}
use suburban_soc.Agent.Routing.{
  env_char, tenant_env_suffix, Environ, ntfy_topic_for, discord_webhook_for,
}
use suburban_soc.Base.{
  ℕ, zero, suc, ◌+◌, ◌<◌, ◌-◌, String, ◌≡◌, refl, sym, ap, ◌∙◌, ◌≢◌, inl, inr, Bool, true, ◌&&◌,
  Option, some, arith, leb, ◌==◌, nat_eq, string_eq, eq_of_beq, if◌then◌else◌, Bool-cases,
}

-- The number of a slug's character in the name of a variable.
env_code : ℕ → ℕ
env_code n = if leb b'a' n then n - 32 else if n == b'-' then b'_' else n

-- A text whose characters are numbered in a row.
ascending : ℕ → String → Bool
ascending k [] = true
ascending k (c ∷ s) = code c == k && ascending (suc k) s

size : String → ℕ
size [] = 0
size (c ∷ s) = suc (size s)

code-nth :
    (k : ℕ) (s : String) (n : ℕ) (d : Char)
    → ascending k s ≡ true
    → n < size s
    → code (nth s n d) ≡ k + n
unfolding ascending nth size
code-nth k [] n d h bound = absurd (omega (arith, bound))
code-nth k (c ∷ s) zero d h bound = ground (arith, h)
code-nth k (c ∷ s) (suc n) d h bound =
    code-nth (suc k) s n d (ground (arith, h)) (omega (arith, bound)) ∙ omega arith

code-env_char : (c : Char) → is_slug_char (code c) ≡ true → code (env_char c) ≡ env_code (code c)
unfolding is_slug_char env_char env_code ascending size
code-env_char c h = elim (Bool-cases (in_range b'a' b'z' (code c))) [
  | inl letter ↦ rw letter (
      code-nth b'A' "ABCDEFGHIJKLMNOPQRSTUVWXYZ" (code c - b'a') c refl (ground (arith, letter))
      ∙ ground (arith, letter))
  | inr other ↦ elim (Bool-cases (code c == b'-')) [
    | inl dash ↦ rw (other, dash) (ground (arith, dash))
    | inr digit ↦ rw (other, digit) (ground (arith, other, digit, h))
  ]
]

env_code-injective :
    (m n : ℕ) → is_slug_char m ≡ true → is_slug_char n ≡ true → env_code m ≡ env_code n → m ≡ n
unfolding is_slug_char env_code
env_code-injective m n h k e = ground arith

env_char-injective :
    (c d : Char)
    → is_slug_char (code c) ≡ true
    → is_slug_char (code d) ≡ true
    → env_char c ≡ env_char d
    → c ≡ d
env_char-injective c d h k e = Char-path c d (
    env_code-injective (code c) (code d) h k
      (sym (code-env_char c h) ∙ ap code e ∙ code-env_char d k))

suffix-injective-tail :
    (s t : String) (m n : ℕ)
    → slug_tail s ≡ some m
    → slug_tail t ≡ some n
    → tenant_env_suffix s ≡ tenant_env_suffix t
    → s ≡ t
unfolding tenant_env_suffix
suffix-injective-tail [] [] m n h k e = refl
suffix-injective-tail [] (d ∷ t) m n h k e = cc
suffix-injective-tail (c ∷ s) [] m n h k e = cc
suffix-injective-tail (c ∷ s) (d ∷ t) m n h k e =
    let (c_fits, (s_count, s_tail)) = slug_tail-cons c s m h in
    let (d_fits, (t_count, t_tail)) = slug_tail-cons d t n k in
    let heads = env_char-injective c d c_fits d_fits (cc e) in
    let tails = suffix-injective-tail s t s_count t_count s_tail t_tail (cc e) in cc (heads, tails)

suffix-injective :
    (s t : String)
    → matches_tenant_re s ≡ true
    → matches_tenant_re t ≡ true
    → tenant_env_suffix s ≡ tenant_env_suffix t
    → s ≡ t
suffix-injective s t h k e =
    let (m, s_tail) = slug-tail s h in
    let (n, t_tail) = slug-tail t k in suffix-injective-tail s t m n s_tail t_tail e

-- The environment with one variable set to another value, or not set.
abbrev pub with_variable : String → Option String → Environ → Environ
with_variable name value environ = λ n. if n == name then value else environ n

unchanged :
    (environ : Environ) (name other : String) (value : Option String)
    → (name ≡ other → ⊥)
    → with_variable other value environ name ≡ environ name
unchanged environ name other value apart = elim (Bool-cases (name == other)) [
  | inl same ↦ absurd (apart (eq_of_beq name other same))
  | inr differ ↦ rw differ refl
]

-- Whatever is set up for another tenant, and whether it is set up at all, a tenant's pushes go where
-- they went before.
pub routes_apart :
    (environ : Environ) (ntfy_topic discord_webhook_url tenant other : String)
    (value : Option String)
    → matches_tenant_re tenant ≡ true
    → matches_tenant_re other ≡ true
    → tenant ≢ other
    → (ntfy_topic_for
          (with_variable ("NTFY_TOPIC_" ++ tenant_env_suffix other) value environ)
          ntfy_topic
          tenant
        ≡ ntfy_topic_for environ ntfy_topic tenant)
      × (discord_webhook_for
            (with_variable ("DISCORD_WEBHOOK_URL_" ++ tenant_env_suffix other) value environ)
            discord_webhook_url
            tenant
          ≡ discord_webhook_for environ discord_webhook_url tenant)
unfolding ntfy_topic_for discord_webhook_for
routes_apart environ ntfy_topic discord_webhook_url tenant other value h k apart =
    let differ = λ (e : tenant_env_suffix tenant ≡ tenant_env_suffix other).
      apart (suffix-injective tenant other h k e) in
    (
      rw
          (unchanged environ ("NTFY_TOPIC_" ++ tenant_env_suffix tenant)
            ("NTFY_TOPIC_" ++ tenant_env_suffix other) value
            (λ e. differ (
              append_cancel_left "NTFY_TOPIC_" (tenant_env_suffix tenant) (tenant_env_suffix other)
                e)))
          refl,
      rw
          (unchanged environ ("DISCORD_WEBHOOK_URL_" ++ tenant_env_suffix tenant)
            ("DISCORD_WEBHOOK_URL_" ++ tenant_env_suffix other) value
            (λ e. differ (
              append_cancel_left "DISCORD_WEBHOOK_URL_" (tenant_env_suffix tenant)
                (tenant_env_suffix other) e)))
          refl,
    )
