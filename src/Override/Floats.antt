-- ===== src/Override/Floats.antt =====
-- The floating-point arithmetic that the override computes with: an argument of the model.
use ros2_ws_gp.Common.{ℕ, Bool, if◌then◌else◌}

-- The operations, on finite values. `decimal n k` is the literal n / 10^k.
pub record Floats : Type 1 where
  pub Float : Type 0
  pub decimal : ℕ → ℕ → Float
  pub add : Float → Float → Float
  pub sub : Float → Float → Float
  pub mul : Float → Float → Float
  pub div : Float → Float → Float
  pub neg : Float → Float
  pub tan : Float → Float
  pub ltb : Float → Float → Bool

module _ (R : Floats) where
  open R use {Float, decimal, ltb}

  abbrev pub zero_float : Float
  zero_float = decimal 0 0

  abbrev pub one_float : Float
  one_float = decimal 1 0

  -- `min(a, b)` and `max(a, b)` of Python: the first, unless the second is strictly beyond it.
  unfoldable pub min_float : Float → Float → Float
  min_float a b = if ltb b a then b else a

  unfoldable pub max_float : Float → Float → Float
  max_float a b = if ltb a b then b else a

  -- `abs(x)`
  unfoldable pub abs_float : Float → Float
  abs_float x = if ltb x zero_float then R.neg x else x
