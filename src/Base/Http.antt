-- ===== src/Base/Http.antt =====
-- What one HTTP request comes to, as `requests` shows it to the programs.
use Prim.Native.Nat.{ℕ}
use mathlib.Core.Option.{Option}

-- No answer, or a status with a body; `none` is a body that is not the JSON that the code reads.
pub data Answer {ℓ} (B : Type ℓ) : Type ℓ where
  lost : Answer B
  replied : ℕ → Option B → Answer B
