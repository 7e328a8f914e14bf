-- ===== src/Base/Int.antt =====
-- Go's signed `int` and `time.Duration`, as far as the program tests their sign.
use Prim.Native.Nat.{ℕ, suc}
use mathlib.Core.Bool.{Bool, true, false}

-- `negsuc n` is -(n + 1).
pub data ℤ : Type 0 where
  pos : ℕ → ℤ
  negsuc : ℕ → ℤ

abbrev pub pos_part : ℤ → ℕ
pos_part (pos n) = n
pos_part (negsuc n) = 0

-- `i < 0` and `i <= 0`.
abbrev pub is_negative : ℤ → Bool
is_negative (pos n) = false
is_negative (negsuc n) = true

abbrev pub is_nonpositive : ℤ → Bool
is_nonpositive (pos ℕ.zero) = true
is_nonpositive (pos (suc n)) = false
is_nonpositive (negsuc n) = true
