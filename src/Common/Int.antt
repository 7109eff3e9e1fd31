-- ===== src/Common/Int.antt =====
-- Signed integers over the native numbers.
use Prim.Native.Nat.{ℕ, zero, suc, ◌+◌}
use mathlib.Core.Bool.{Bool, true, false}
use ros2_ws_gp.Common.Tests.{ltb, ◌==◌}

-- `negsuc n` is -(n + 1).
pub data ℤ : Type 0 where
  pos : ℕ → ℤ
  negsuc : ℕ → ℤ

-- -n
abbrev pub neg : ℕ → ℤ
neg zero = pos 0
neg (suc n) = negsuc n

-- z + 1
abbrev pub succ : ℤ → ℤ
succ (pos n) = pos (n + 1)
succ (negsuc n) = neg n

-- The integer as a number, zero where it is negative.
abbrev pub pos_part : ℤ → ℕ
pos_part (pos n) = n
pos_part (negsuc n) = 0

-- a - b
abbrev pub diff : ℕ → ℕ → ℤ
diff a zero = pos a
diff zero (suc b) = negsuc b
diff (suc a) (suc b) = diff a b

-- -z
abbrev pub opposite : ℤ → ℤ
opposite (pos n) = neg n
opposite (negsuc n) = pos (suc n)

-- y + z
abbrev pub plus : ℤ → ℤ → ℤ
plus (pos a) (pos b) = pos (a + b)
plus (pos a) (negsuc b) = diff a (suc b)
plus (negsuc a) (pos b) = diff b (suc a)
plus (negsuc a) (negsuc b) = negsuc (suc (a + b))

-- y - z
abbrev pub minus : ℤ → ℤ → ℤ
minus y z = plus y (opposite z)

-- |z|
abbrev pub magnitude : ℤ → ℕ
magnitude (pos n) = n
magnitude (negsuc n) = suc n

-- y < z
abbrev pub ltb_int : ℤ → ℤ → Bool
ltb_int (pos a) (pos b) = ltb a b
ltb_int (pos a) (negsuc b) = false
ltb_int (negsuc a) (pos b) = true
ltb_int (negsuc a) (negsuc b) = ltb b a

-- y == z
abbrev pub beq_int : ℤ → ℤ → Bool
beq_int (pos a) (pos b) = a == b
beq_int (negsuc a) (negsuc b) = a == b
beq_int _ _ = false
