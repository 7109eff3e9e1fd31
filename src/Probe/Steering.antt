-- ===== src/Probe/Steering.antt =====
-- nav_probe.py: what the callbacks of `Probe` collect about the steering, and how the input of the
-- velocity smoother is matched with its output.
pub mod Pairs
use ros2_ws_gp.Common.{
  ◌==◌, ℕ, zero, suc, ◌+◌, Bool, true, false, not, ◌&&◌, Option, none, some, List, [], ◌∷◌, ◌++◌,
  map, select, length, if◌then◌else◌,
}
use ros2_ws_gp.Common.Text.{Text, codes, text_beq}
use ros2_ws_gp.Override.Floats.{Floats, zero_float, one_float, min_float, max_float, abs_float}
use ros2_ws_gp.Probe.{Point}

-- `math.atan` and `math.hypot` are arguments.
module _ (R : Floats) (atan : R.Float → R.Float) (hypot : R.Float → R.Float → R.Float)
    (wheelbase : R.Float) where
  open R use {Float, decimal, add, sub, mul, div, ltb as lt_float}

  -- The distance of a point from a segment.
  unfoldable pub point_seg_dist : Point R → Point R → Point R → Float
  point_seg_dist p a b =
      let dx = sub b.x a.x in
      let dy = sub b.y a.y in
      let d2 = add (mul dx dx) (mul dy dy) in
      let t =
        max_float R (zero_float R) (
          min_float R (one_float R) (div (add (mul (sub p.x a.x) dx) (mul (sub p.y a.y) dy)) d2)) in
      if not (lt_float d2 (zero_float R)) && not (lt_float (zero_float R) d2)
      then hypot (sub p.x a.x) (sub p.y a.y)
      else hypot (sub p.x (add a.x (mul t dx))) (sub p.y (add a.y (mul t dy)))

  -- A time, and the magnitude of the steering angle that a command implies.
  abbrev pub Sample : Type 0
  Sample = Float × Float

  pub record Collected : Type 0 where
    pub nav_in : List Sample
    pub nav_out : List Sample
    pub steer : List Float
    pub cmd_steer : List Float
    pub cmd_vx : List Float

  -- `_delta`: the steering angle of a command that moves the vehicle.
  unfoldable pub delta : Float → Float → Option Float
  delta vx wz =
      if lt_float (decimal 2 2) (abs_float R vx)
      then some (atan (div (mul wheelbase wz) (abs_float R vx)))
      else none

  abbrev sample_at : Float → Option Float → List Sample → List Sample
  sample_at now none samples = samples
  sample_at now (some d) samples = samples ++ (now, abs_float R d) ∷ []

  unfoldable pub on_nav_in : Float → Float → Float → Collected → Collected
  on_nav_in now vx wz s = record s { nav_in = sample_at now (delta vx wz) s.nav_in }

  unfoldable pub on_nav_out : Float → Float → Float → Collected → Collected
  on_nav_out now vx wz s = record s { nav_out = sample_at now (delta vx wz) s.nav_out }

  abbrev angle_of : Option Float → List Float → List Float
  angle_of none angles = angles
  angle_of (some d) angles = angles ++ d ∷ []

  unfoldable pub on_cmd : Float → Float → Collected → Collected
  on_cmd vx wz s = record s {
    cmd_vx = s.cmd_vx ++ vx ∷ [];
    cmd_steer = angle_of (delta vx wz) s.cmd_steer;
  }

  -- `m.position[m.name.index(name)]`, where the name occurs
  unfoldable pub position_of : Text → List (Text × Float) → Option Float
  position_of name [] = none
  position_of name ((n, v) ∷ joints) =
      let later = position_of name joints in if text_beq n name then some v else later

  unfoldable pub on_joints : List (Text × Float) → Collected → Collected
  on_joints joints s = record s {
    steer =
        angle_of (position_of (codes "front_right_steering_joint") joints)
          (angle_of (position_of (codes "front_left_steering_joint") joints) s.steer);
  }

  -- The inputs from index `i` on, once `i` has moved up to the last one not after `t`.
  unfoldable pub catch_up : Float → List Sample → List Sample
  catch_up t (a ∷ (u, d) ∷ ins) =
      let on = catch_up t ((u, d) ∷ ins) in if lt_float t u then a ∷ (u, d) ∷ ins else on
  catch_up t ins = ins

  abbrev pub pair_with : Float → List Sample → List (Float × Float) → List (Float × Float)
  pair_with d [] rest = rest
  pair_with d ((u, e) ∷ ins) rest = (e, d) ∷ rest

  -- `pairs`: each output with the input that was in force.
  unfoldable pub pair_up : List Sample → List Sample → List (Float × Float)
  pair_up ins [] = []
  pair_up ins ((t, d) ∷ outs) = let ins' = catch_up t ins in pair_with d ins' (pair_up ins' outs)

  -- How many outputs are above their input.
  unfoldable pub inflated : List Sample → List Sample → ℕ
  inflated ins outs = length (select (λ p. lt_float (add p.0 (decimal 1 4)) p.1) (pair_up ins outs))

  -- How many of some values pass a test, in percent.
  unfoldable pub percent : (Float → Bool) → List Float → Float
  percent test xs =
      div (mul (decimal 100 0) (decimal (length (select test xs)) 0)) (decimal (length xs) 0)

  -- The shares of the summary: at the clamp of the steering, in reverse, and past the clamp.
  unfoldable pub steer_at_clamp_pct : Float → List Float → Float
  steer_at_clamp_pct clamp steer =
      percent (λ s. not (lt_float s (mul (decimal 95 2) clamp))) (map (abs_float R) steer)

  unfoldable pub reverse_pct : List Float → Float
  reverse_pct cmd_vx = percent (λ v. lt_float v (sub (zero_float R) (decimal 1 2))) cmd_vx

  unfoldable pub past_clamp_pct : Float → List Sample → Float
  past_clamp_pct clamp samples = percent (λ d. lt_float clamp d) (map (λ s. s.1) samples)

  -- What was heard last: the pose of the model and of the localisation, and the plan.
  pub record Latest (A : Type 0) : Type 0 where
    pub truth : Option A
    pub amcl : Option A
    pub plan : List (Point R)

  abbrev pose_of : {A : Type 0} → Text → List (Text × A) → Option A → Option A
  pose_of name [] before = before
  pose_of name ((n, p) ∷ models) before =
      let later = pose_of name models before in if text_beq n name then some p else later

  unfoldable pub on_truth : {A : Type 0} → Text → List (Text × A) → Latest A → Latest A
  on_truth model models s = record s { truth = pose_of model models s.truth }

  unfoldable pub on_amcl : {A : Type 0} → A → Latest A → Latest A
  on_amcl p s = record s { amcl = some p }

  unfoldable pub on_plan : {A : Type 0} → List (Point R) → Latest A → Latest A
  on_plan points s = record s { plan = points }

pub data Outcome : Type 0 where
  succeeded canceled aborted timed_out : Outcome

-- The outcome of a goal by the status of its result, which is none in time if there is none.
unfoldable pub outcome_of : Option ℕ → Outcome
outcome_of none = timed_out
outcome_of (some status) =
    if status == 4
    then succeeded
    else if status == 5
    then canceled
    else if status == 6
    then aborted
    else timed_out
