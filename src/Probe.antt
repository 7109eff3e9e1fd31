-- ===== src/Probe.antt =====
-- nav_probe.py: a plan is split at its cusps, and its curvature is measured within each part.
pub mod Cusps
pub mod Steering
pub mod Goal
pub mod Course
use ros2_ws_gp.Common.{
  ℕ, zero, suc, ◌+◌, ◌-◌, ◌*◌, Bool, true, false, not, ◌&&◌, ◌||◌, Option, none, some, List, [],
  ◌∷◌, ◌++◌, length, leb, ltb, map, select, if◌then◌else◌,
}
use ros2_ws_gp.Override.Floats.{Floats, zero_float, abs_float, min_float}

module _ {P : Type 0} (doubles : P → P → P → Bool) where
  -- The loop of `split_at_cusps` before `p`: `cur` is `xs` and then the point before `p`.
  unfoldable pub walk : List P → P → P → List P → List (List P)
  walk xs prev p [] = (xs ++ prev ∷ p ∷ []) ∷ []
  walk xs prev p (q ∷ rest) =
      let onward = walk (xs ++ prev ∷ []) p q rest in
      let anew = walk [] p q rest in
      if doubles prev p q then (xs ++ prev ∷ p ∷ []) ∷ anew else onward

  -- All the runs; of one point the run has it twice.
  unfoldable pub runs_of : List P → List (List P)
  runs_of [] = []
  runs_of (a ∷ []) = (a ∷ a ∷ []) ∷ []
  runs_of (a ∷ b ∷ rest) = walk [] a b rest

  -- `split_at_cusps`
  unfoldable pub split_at_cusps : List P → List (List P)
  split_at_cusps pts = select (λ run. leb 3 (length run)) (runs_of pts)

pub record Point (R : Floats) : Type 0 where
  pub x : R.Float
  pub y : R.Float

-- `math.dist` is an argument.
module _ (R : Floats) (dist : Point R → Point R → R.Float) where
  open R use {Float, decimal, add, sub, mul, div, ltb as lt_float}

  -- The dot product of the segments at the middle point is negative.
  unfoldable pub is_cusp : Point R → Point R → Point R → Bool
  is_cusp a b c =
      lt_float (add (mul (sub b.x a.x) (sub c.x b.x)) (mul (sub b.y a.y) (sub c.y b.y)))
        (zero_float R)

  unfoldable pub path_length : List (Point R) → Float
  path_length pts = go (zero_float R) pts
    where
      go : Float → List (Point R) → Float
      go acc [] = acc
      go acc (a ∷ []) = acc
      go acc (a ∷ b ∷ rest) = go (add acc (dist a b)) (b ∷ rest)

  -- The sign and the radius at the middle point, unless the points are in line or together.
  unfoldable pub curvature : Point R → Point R → Point R → Option (Bool × Float)
  curvature p1 p2 p3 =
      let cross = sub (mul (sub p2.x p1.x) (sub p3.y p2.y)) (mul (sub p2.y p1.y) (sub p3.x p2.x)) in
      let abc = mul (mul (dist p1 p2) (dist p2 p3)) (dist p1 p3) in
      if lt_float (decimal 1 9) (abs_float R cross) && lt_float (decimal 1 9) abc
      then some (lt_float (zero_float R) cross, div abc (mul (decimal 2 0) (abs_float R cross)))
      else none

  abbrev add_curvature : Option (Bool × Float) → List (Bool × Float) → List (Bool × Float)
  add_curvature none rest = rest
  add_curvature (some c) rest = c ∷ rest

  -- The signs and radii of a run, in its order.
  unfoldable pub curvatures : List (Point R) → List (Bool × Float)
  curvatures (a ∷ b ∷ c ∷ rest) = add_curvature (curvature a b c) (curvatures (b ∷ c ∷ rest))
  curvatures _ = []

  abbrev differs : Bool → Bool → Bool
  differs true b = not b
  differs false b = b

  -- The places where the sign changes.
  unfoldable pub reversals : List (Bool × Float) → ℕ
  reversals ((s, _) ∷ (t, r) ∷ rest) =
      let more = reversals ((t, r) ∷ rest) in if differs s t then 1 + more else more
  reversals _ = 0

  unfoldable pub count_reversals : List (List (Point R)) → ℕ
  count_reversals [] = 0
  count_reversals (run ∷ runs) = reversals (curvatures run) + count_reversals runs

  unfoldable pub radii : List (List (Point R)) → List Float
  radii [] = []
  radii (run ∷ runs) = map (λ c. c.1) (curvatures run) ++ radii runs

  -- `min(radii)`; `none` is the infinity of no radius at all.
  unfoldable pub least : List Float → Option Float
  least [] = none
  least (r ∷ rs) = some (go r rs)
    where
      go : Float → List Float → Float
      go m [] = m
      go m (s ∷ ss) = go (min_float R m s) ss

  pub record Metrics : Type 0 where
    pub length_m : Float
    pub reversals_per_m : Float
    pub min_radius : Option Float
    pub cusps : ℕ

  unfoldable pub path_metrics : List (Point R) → Option Metrics
  path_metrics pts =
      let total = path_length pts in
      let runs = split_at_cusps is_cusp pts in
      if ltb (length pts) 3 || lt_float total (decimal 5 1)
      then none
      else some (record {
        length_m = total;
        reversals_per_m = div (decimal (count_reversals runs) 0) total;
        min_radius = least (radii runs);
        cusps = length runs - 1;
      })
