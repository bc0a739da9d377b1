-- ===== src/Broker/Queue/Labels.antt =====
-- What a caller's label can put on a row of the queue.
use Prim.Native.Char.{code}
use suburban_soc.Base.{
  ℕ, zero, suc, ◌≤◌, String, ◌≡◌, refl, ◌⊎◌, inl, inr, Bool, false, ◌||◌, some, arith,
}
use suburban_soc.Broker.Gate.{str}
use suburban_soc.Broker.Queue.{cleaned, truncated, claimed_approver, safe_request_id}

abbrev pub chars : String → ℕ
chars String.[] = 0
chars (String.◌∷◌ c s) = suc (chars s)

abbrev pub has_control : (ℕ → Bool) → String → Bool
has_control is_control String.[] = false
has_control is_control (String.◌∷◌ c s) = is_control (code c) || has_control is_control s

chars-truncated : (n : ℕ) (s : String) → chars (truncated n s) ≤ n
unfolding truncated
chars-truncated zero s = omega arith
chars-truncated (suc n) String.[] = omega arith
chars-truncated (suc n) (String.◌∷◌ c s) = omega (arith, chars-truncated n s)

has_control-truncated :
    (is_control : ℕ → Bool) (n : ℕ) (s : String)
    → has_control is_control s ≡ false
    → has_control is_control (truncated n s) ≡ false
unfolding truncated
has_control-truncated is_control zero s h = refl
has_control-truncated is_control (suc n) String.[] h = refl
has_control-truncated is_control (suc n) (String.◌∷◌ c s) h =
    ground (arith, has_control-truncated is_control n s)

has_control-cleaned :
    (is_control : ℕ → Bool) (s : String) → has_control is_control (cleaned is_control s) ≡ false
unfolding cleaned
has_control-cleaned is_control String.[] = refl
has_control-cleaned is_control (String.◌∷◌ c s) = ground (arith, has_control-cleaned is_control s)

label_lem :
    (is_control : ℕ → Bool) (raw label : String)
    → (claimed_approver is_control (str raw) ≡ some label)
      ⊎ (safe_request_id is_control (str raw) ≡ some label)
    → label ≡ truncated 64 (cleaned is_control raw)
unfolding claimed_approver safe_request_id
label_lem is_control raw label (inl h) = cc
label_lem is_control raw label (inr h) = cc

-- A text that a caller sends as `approver` is recorded, and one that it sends as `request_id` is
-- echoed, with at most 64 characters and with no control or format character.
pub labels_clean :
    (is_control : ℕ → Bool) (raw label : String)
    → (claimed_approver is_control (str raw) ≡ some label)
      ⊎ (safe_request_id is_control (str raw) ≡ some label)
    → (chars label ≤ 64) × (has_control is_control label ≡ false)
labels_clean is_control raw label h = rw (label_lem is_control raw label h) (
  chars-truncated 64 (cleaned is_control raw),
  has_control-truncated is_control 64 _ (has_control-cleaned is_control raw),
)
