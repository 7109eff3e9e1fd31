-- ===== src/Probe/Goal/Numbers.antt =====
-- `sorted`, `statistics.median` and the 95th percentile as the summary takes it.
pub mod Ranks
use ros2_ws_gp.Common.{
  ℕ, suc, ◌+◌, ◌-◌, ◌*◌, ◌/◌, ◌%◌, ◌==◌, Bool, Option, none, some, List, [], ◌∷◌, length, get_elem?,
  if◌then◌else◌,
}
use ros2_ws_gp.Override.Floats.{Floats}

module _ (R : Floats) where
  open R use {Float, decimal, add, mul, div, ltb as lt_float}

  unfoldable pub insert_sorted : Float → List Float → List Float
  insert_sorted x [] = x ∷ []
  insert_sorted x (y ∷ ys) =
      let rest = insert_sorted x ys in if lt_float y x then y ∷ rest else x ∷ y ∷ ys

  -- `sorted(xs)`
  unfoldable pub sort : List Float → List Float
  sort [] = []
  sort (x ∷ xs) = insert_sorted x (sort xs)

  abbrev mean_of : Option Float → Option Float → Option Float
  mean_of (some a) (some b) = some (div (add a b) (decimal 2 0))
  mean_of _ _ = none

  -- `statistics.median(xs)`; `none` is its error on no value.
  unfoldable pub median : List Float → Option Float
  median [] = none
  median (x ∷ xs) =
      let sorted = sort (x ∷ xs) in
      let n = length sorted in
      if n % 2 == 1
      then get_elem? sorted (n / 2)
      else mean_of (get_elem? sorted (n / 2 - 1)) (get_elem? sorted (n / 2))

  -- `sorted(xs)[int(0.95 * (len(xs) - 1))]`
  unfoldable pub p95 : (Float → ℕ) → List Float → Option Float
  p95 int xs = get_elem? (sort xs) (int (mul (decimal 95 2) (decimal (length xs - 1) 0)))
