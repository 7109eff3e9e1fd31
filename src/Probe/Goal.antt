-- ===== src/Probe/Goal.antt =====
-- nav_probe.py: one goal, from its sending to the numbers of its summary.
pub mod Numbers
pub mod Summary
pub mod Sampling
use ros2_ws_gp.Common.{
  ℕ, suc, Bool, true, false, not, ◌&&◌, ◌||◌, Option, none, some, List, [], ◌∷◌, ◌++◌, map, length,
  if◌then◌else◌,
}
use ros2_ws_gp.Common.Text.{Text}
use ros2_ws_gp.Override.Floats.{Floats, zero_float, one_float}
use ros2_ws_gp.Probe.{Point, least}
use ros2_ws_gp.Probe.Steering.{
  Sample, Collected, Latest, point_seg_dist, on_nav_in, on_nav_out, on_cmd, on_joints, on_truth,
  on_amcl, on_plan,
}

-- The functions of `math` that the script uses, and `round`, `int` of a float.
pub record Maths (R : Floats) : Type 0 where
  pub atan : R.Float → R.Float
  pub atan2 : R.Float → R.Float → R.Float
  pub sin : R.Float → R.Float
  pub cos : R.Float → R.Float
  pub hypot : R.Float → R.Float → R.Float
  pub dist : Point R → Point R → R.Float
  pub round : ℕ → R.Float → R.Float
  pub int : R.Float → ℕ

module _ (R : Floats) (maths : Maths R) (wheelbase : R.Float) where
  open R use {Float, decimal, add, sub, mul, div, ltb as lt_float}

  pub record Quaternion : Type 0 where
    pub qx : Float
    pub qy : Float
    pub qz : Float
    pub qw : Float

  unfoldable pub yaw_of : Quaternion → Float
  yaw_of q =
      maths.atan2 (mul (decimal 2 0) (add (mul q.qw q.qz) (mul q.qx q.qy)))
        (sub (one_float R) (mul (decimal 2 0) (add (mul q.qy q.qy) (mul q.qz q.qz))))

  pub record BodyPose : Type 0 where
    pub position : Point R
    pub orientation : Quaternion

  -- An entry of `samples`: the true position and yaw, the cross-track error if there is a plan, and
  -- where the localisation is.
  pub record Measured : Type 0 where
    pub at : Point R
    pub yaw : Float
    pub xte : Option Float
    pub located : Option (Point R)

  -- A row of `trace`.
  pub record Row : Type 0 where
    pub t : Float
    pub x : Float
    pub y : Float
    pub to_goal : Float
    pub vx : Float
    pub angle : Float
    pub plan_len : ℕ

  pub record Probe : Type 0 where
    pub latest : Latest R maths.atan maths.hypot wheelbase BodyPose
    pub collected : Collected R maths.atan maths.hypot wheelbase
    pub samples : List Measured
    pub trace : List Row
    pub plans : List (List (Point R))

  -- What one pass of the executor may hear.
  pub data Heard : Type 0 where
    models : List (Text × BodyPose) → Heard
    amcl_pose : BodyPose → Heard
    new_plan : List (Point R) → Heard
    joints : List (Text × Float) → Heard
    command : Float → Float → Heard
    smoother_input smoother_output : Float → Float → Float → Heard

  -- `spin_once`, with the name of the model
  unfoldable pub hear : Text → Option Heard → Probe → Probe
  hear model none s = s
  hear model (some (models ms)) s = record s { latest = on_truth R _ _ _ model ms s.latest }
  hear model (some (amcl_pose p)) s = record s { latest = on_amcl R _ _ _ p s.latest }
  hear model (some (new_plan points)) s = record s { latest = on_plan R _ _ _ points s.latest }
  hear model (some (joints js)) s = record s { collected = on_joints R _ _ _ js s.collected }
  hear model (some (command vx wz)) s = record s { collected = on_cmd R _ _ _ vx wz s.collected }
  hear model (some (smoother_input now vx wz)) s = record s {
    collected = on_nav_in R _ _ _ now vx wz s.collected;
  }
  hear model (some (smoother_output now vx wz)) s = record s {
    collected = on_nav_out R _ _ _ now vx wz s.collected;
  }

  -- The distances from the segments of a plan; one point has none.
  unfoldable pub segment_dists : Point R → List (Point R) → List Float
  segment_dists tp (a ∷ b ∷ plan) =
      point_seg_dist R maths.atan maths.hypot wheelbase tp a b ∷ segment_dists tp (b ∷ plan)
  segment_dists tp _ = []

  -- `round(xs[-1], digits) if xs else 0.0`
  unfoldable pub last_rounded : ℕ → List Float → Float
  last_rounded digits [] = zero_float R
  last_rounded digits (x ∷ []) = maths.round digits x
  last_rounded digits (x ∷ y ∷ xs) = last_rounded digits (y ∷ xs)

  abbrev same_float : Float → Float → Bool
  same_float a b = not (lt_float a b) && not (lt_float b a)

  -- The equality of two lists of points.
  unfoldable pub same_plan : List (Point R) → List (Point R) → Bool
  same_plan [] [] = true
  same_plan (a ∷ ps) (b ∷ qs) = same_float a.x b.x && (same_float a.y b.y && same_plan ps qs)
  same_plan _ _ = false

  -- `plan_snapshots` with a plan that differs from the last one.
  unfoldable pub snapshot : List (Point R) → List (List (Point R)) → List (List (Point R))
  snapshot [] plans = plans
  snapshot (a ∷ plan) [] = (a ∷ plan) ∷ []
  snapshot (a ∷ plan) (last ∷ []) =
      if same_plan last (a ∷ plan) then last ∷ [] else last ∷ (a ∷ plan) ∷ []
  snapshot (a ∷ plan) (p ∷ q ∷ plans) = p ∷ snapshot (a ∷ plan) (q ∷ plans)

  abbrev place_of : Option BodyPose → Option (Point R)
  place_of none = none
  place_of (some p) = some p.position

  -- The body of the loop after `spin_once`, `t` seconds into the run.
  unfoldable pub measure : Point R → Float → Option BodyPose → Probe → Probe
  measure goal t none s = s
  measure goal t (some truth) s =
      let tp = truth.position in
      let measured : Measured = record {
        at = tp;
        yaw = yaw_of truth.orientation;
        xte = least R maths.dist (segment_dists tp s.latest.plan);
        located = place_of s.latest.amcl;
      } in
      let row : Row = record {
        t = maths.round 2 t;
        x = maths.round 3 tp.x;
        y = maths.round 3 tp.y;
        to_goal = maths.round 3 (maths.hypot (sub tp.x goal.x) (sub tp.y goal.y));
        vx = last_rounded 3 s.collected.cmd_vx;
        angle = last_rounded 4 s.collected.steer;
        plan_len = length s.latest.plan;
      } in
      record s {
        samples = s.samples ++ measured ∷ [];
        trace = s.trace ++ row ∷ [];
        plans = snapshot s.latest.plan s.plans;
      }

  -- What one pass of the loop meets: the time since the start and whether the result is there when the
  -- loop is tested, what `spin_once` hears, and the time of the row.
  pub record Pass : Type 0 where
    pub elapsed : Float
    pub finished : Bool
    pub heard : Option Heard
    pub measured_at : Float

  unfoldable pub sample_while : Text → Point R → Float → List Pass → Probe → Probe
  sample_while model goal timeout [] s = s
  sample_while model goal timeout (pass ∷ passes) s =
      let s' = hear model pass.heard s in
      let rest =
        sample_while model goal timeout passes (measure goal pass.measured_at s'.latest.truth s') in
      if lt_float pass.elapsed timeout && not pass.finished then rest else s

  -- `run_goal` begins with nothing collected; what was heard last stays.
  unfoldable pub cleared : Probe → Probe
  cleared s = record s {
    samples = [];
    trace = [];
    plans = [];
    collected = record { nav_in = []; nav_out = []; steer = []; cmd_steer = []; cmd_vx = [] };
  }
