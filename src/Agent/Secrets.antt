-- ===== src/Agent/Secrets.antt =====
-- The three secrets of the agent, as scripts/setup/ai_agent/agent.py resolves them when it starts:
-- `_resolve_approver_secret`, `_resolve_hive_mind_secret` and the two assignments that use them.
-- An empty text is a secret that is not configured: whatever it signs is refused.
use suburban_soc.Base.{
  String, ◌≡◌, refl, sym, ◌∙◌, ◌≢◌, ◌⊎◌, inl, inr, true, not, ◌&&◌, List, [], ◌∷◌, arith, ◌==◌,
  nat_eq, string_eq, ne_of_beq, eq_of_beq, if◌then◌else◌, Bool-cases, any, All,
}
use mathlib.Core.Path.{subst}

-- `if approver_secret and hmac.compare_digest(approver_secret, alert_secret)`
unfoldable pub resolve_approver_secret : String → String → String
resolve_approver_secret approver_secret alert_secret =
    if not (approver_secret == "") && approver_secret == alert_secret then "" else approver_secret

-- `other_credentials`, without the names that are only logged
unfoldable pub resolve_hive_mind_secret : String → List String → String
resolve_hive_mind_secret hive_secret [] = hive_secret
resolve_hive_mind_secret hive_secret (env_var_value ∷ others) =
    let rest = resolve_hive_mind_secret hive_secret others in
    if not (hive_secret == "") && not (env_var_value == "") && hive_secret == env_var_value
    then ""
    else rest

pub record Secrets : Type 0 where
  pub hmac_secret : String
  pub approver_hmac_secret : String
  pub hive_mind_secret : String

-- `HMAC_SECRET`, `APPROVER_HMAC_SECRET` and `HIVE_MIND_SECRET`, from what is configured
unfoldable pub resolve_secrets : String → String → String → Secrets
unfolding resolve_approver_secret resolve_hive_mind_secret
resolve_secrets alert_secret approver_secret hive_secret =
    let approver = resolve_approver_secret approver_secret alert_secret in
    record {
      hmac_secret = alert_secret;
      approver_hmac_secret = approver;
      hive_mind_secret = resolve_hive_mind_secret hive_secret (alert_secret ∷ approver ∷ []);
    }

-- A resolved secret: either as configured and apart from the others, or empty, since it was not
-- configured or is one of them.
abbrev pub IsResolved : String → String → List String → Type 0
IsResolved resolved configured others =
    ((resolved ≡ configured) × All (λ other. resolved ≢ other) others)
    ⊎ ((resolved ≡ "") × ((configured ≡ "") ⊎ (any (λ other. configured == other) others ≡ true)))

approver-IsResolved : (a l : String) → IsResolved (resolve_approver_secret a l) a (l ∷ [])
unfolding resolve_approver_secret
approver-IsResolved a l = elim (Bool-cases (a == "")) [
  | inl empty ↦ inr (rw empty (eq_of_beq a "" empty), inl (eq_of_beq a "" empty))
  | inr set ↦ elim (Bool-cases (a == l)) [
    | inl same ↦ inr (rw (set, same) refl, inr (rw same refl))
    | inr differ ↦ inl (rw (set, differ) (refl, (ne_of_beq a l differ, tt)))
  ]
]

-- One more of the others, once it is known how the rest resolved.
keeps : (r h o : String) (os : List String) → h ≢ o → IsResolved r h os → IsResolved r h (o ∷ os)
keeps r h o os apart (inl (e, all)) = inl (e, ((λ same. apart (sym e ∙ same)), all))
keeps r h o os apart (inr (e, inl empty)) = inr (e, inl empty)
keeps r h o os apart (inr (e, inr found)) = inr (e, inr (ground (arith, found)))

voids : (r h : String) (os : List String) → h ≡ "" → r ≡ h ⊎ r ≡ "" → IsResolved r h os
voids r h os empty (inl e) = inr (e ∙ empty, inl empty)
voids r h os empty (inr e) = inr (e, inl empty)

either : (r h : String) (os : List String) → IsResolved r h os → r ≡ h ⊎ r ≡ ""
either r h os (inl (e, all)) = inl e
either r h os (inr (e, why)) = inr e

-- Either the next of the others makes no difference, or it is the secret.
hive-cases :
    (h o : String) (os : List String)
    → ((resolve_hive_mind_secret h (o ∷ os) ≡ resolve_hive_mind_secret h os) × ((h ≡ "") ⊎ (h ≢ o)))
      ⊎ ((resolve_hive_mind_secret h (o ∷ os) ≡ "") × ((h == o) ≡ true))
unfolding resolve_hive_mind_secret
hive-cases h o os = elim (Bool-cases (h == "")) [
  | inl empty ↦ inl (rw empty refl, inl (eq_of_beq h "" empty))
  | inr set ↦ elim (Bool-cases (o == "")) [
    | inl blank ↦
        inl (rw (set, blank) refl, inr (λ e. ne_of_beq h "" set (e ∙ eq_of_beq o "" blank)))
    | inr other ↦ elim (Bool-cases (h == o)) [
      | inl same ↦ inr (rw (set, other, same) refl, same)
      | inr differ ↦ inl (rw (set, other, differ) refl, inr (ne_of_beq h o differ))
    ]
  ]
]

hive-step :
    (h o : String) (os : List String)
    → IsResolved (resolve_hive_mind_secret h os) h os
    → IsResolved (resolve_hive_mind_secret h (o ∷ os)) h (o ∷ os)
hive-step h o os rest = elim (hive-cases h o os) [
  | inl (e, inl empty) ↦
      voids (resolve_hive_mind_secret h (o ∷ os)) h (o ∷ os) empty
        (subst (λ r. r ≡ h ⊎ r ≡ "") (sym e) (either (resolve_hive_mind_secret h os) h os rest))
  | inl (e, inr apart) ↦
      subst (λ r. IsResolved r h (o ∷ os)) (sym e)
        (keeps (resolve_hive_mind_secret h os) h o os apart rest)
  | inr (e, same) ↦ inr (e, inr (rw same refl))
]

hive-IsResolved : (h : String) (os : List String) → IsResolved (resolve_hive_mind_secret h os) h os
unfolding resolve_hive_mind_secret
hive-IsResolved h [] = inl (refl, tt)
hive-IsResolved h (o ∷ os) = hive-step h o os (hive-IsResolved h os)

-- No two secrets in use are the same.
pub secrets-IsResolved :
    (alert_secret approver_secret hive_secret : String)
    → IsResolved
        (resolve_secrets alert_secret approver_secret hive_secret).approver_hmac_secret
        approver_secret
        (alert_secret ∷ [])
      × IsResolved
          (resolve_secrets alert_secret approver_secret hive_secret).hive_mind_secret
          hive_secret
          (alert_secret
            ∷ (resolve_secrets alert_secret approver_secret hive_secret).approver_hmac_secret
            ∷ [])
unfolding resolve_secrets
secrets-IsResolved alert_secret approver_secret hive_secret = (
  approver-IsResolved approver_secret alert_secret,
  hive-IsResolved hive_secret
      (alert_secret ∷ resolve_approver_secret approver_secret alert_secret ∷ []),
)
