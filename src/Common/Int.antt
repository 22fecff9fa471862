-- ===== src/Common/Int.antt =====
-- Go's int and time.Duration, over the native numbers.
use Prim.Native.Nat.{ℕ}
use mathlib.Core.Path.{subst}
use mathlib.Core.Logic.{◌≢◌}

-- `negsuc n` is -(n + 1).
pub data ℤ : Type 0 where
  pos : ℕ → ℤ
  negsuc : ℕ → ℤ

-- The number where it is positive, and 0 where it is not.
abbrev pub pos_part : ℤ → ℕ
pos_part (pos n) = n
pos_part (negsuc n) = 0

pub negsuc≢pos : {m n : ℕ} → negsuc m ≢ pos n
negsuc≢pos e = subst (λ i. elim i as (λ x. Type 0) [ negsuc n ↦ Unit {0} | pos n ↦ ⊥ ]) e tt
