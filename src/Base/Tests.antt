-- ===== src/Base/Tests.antt =====
-- Boolean tests on numbers and texts, and the conditional.
use Prim.Native.Nat.{ℕ, compare, Ordering}
use Prim.Native.String.{String}
use mathlib.Core.Path.{◌≡◌, refl}
use mathlib.Core.Logic.{◌↔◌, ◌≢◌, ◌⊎◌, inl, inr}
use mathlib.Core.Bool.{Bool, true, false}
use mathlib.Core.Option.{Option, none, some}
use native.Mathlib.Omega.{arith}
use text.Mathlib.Text.{◌==◌ as str_eq}
use text.Mathlib.TextEquality.{eq_iff}

abbrev pub ltb : ℕ → ℕ → Bool
ltb a b = elim (compare a b) [ Ordering.lt ↦ true | _ ↦ false ]

abbrev pub leb : ℕ → ℕ → Bool
leb a b = elim (compare a b) [ Ordering.gt ↦ false | _ ↦ true ]

abbrev pub nat_beq : ℕ → ℕ → Bool
nat_beq a b = elim (compare a b) [ Ordering.eq ↦ true | _ ↦ false ]

pub nat_beq_iff : (a b : ℕ) → (nat_beq a b ≡ true) ↔ (a ≡ b)
nat_beq_iff a b = ground arith

-- An equality test, with what it decides.
pub record Eq {ℓ} (A : Type ℓ) : Type ℓ where
  pub equals : A → A → Bool
  pub decides : (x y : A) → (equals x y ≡ true) ↔ (x ≡ y)

instance abbrev pub string_eq : Eq String
string_eq = record { decides = eq_iff; equals = str_eq }

instance abbrev pub nat_eq : Eq ℕ
nat_eq = record { decides = nat_beq_iff; equals = nat_beq }

infix 50 ◌==◌
abbrev pub ◌==◌ {ℓ} : {A : Type ℓ} → ⦃test : Eq A⦄ → (x y : A) → Bool
◌==◌ ⦃test⦄ x y = test.equals x y

pub beq_refl {ℓ} : {A : Type ℓ} ⦃e : Eq A⦄ → (a : A) → (a == a) ≡ true
beq_refl ⦃e⦄ a = (e.decides a a).1 refl

pub ne_of_beq {ℓ} : {A : Type ℓ} ⦃e : Eq A⦄ → (a b : A) → (a == b) ≡ false → a ≢ b
ne_of_beq ⦃e⦄ a b h p = cc ((e.decides a b).1 p)

pub eq_of_beq {ℓ} : {A : Type ℓ} ⦃e : Eq A⦄ → (a b : A) → (a == b) ≡ true → a ≡ b
eq_of_beq ⦃e⦄ a b h = (e.decides a b).0 h

infix 1 if◌then◌else◌
abbrev pub if◌then◌else◌ {ℓ} : {A : Type ℓ} → Bool → A → A → A
if true then x else y = x
if false then x else y = y

-- To split on a computed value and keep the equation.
pub Bool-cases : (b : Bool) → (b ≡ true) ⊎ (b ≡ false)
Bool-cases true = inl refl
Bool-cases false = inr refl

pub Option-cases {ℓ} : {A : Type ℓ} (o : Option A) → (o ≡ none) ⊎ ((a : A) × (o ≡ some a))
Option-cases none = inl refl
Option-cases (some a) = inr (a, refl)
