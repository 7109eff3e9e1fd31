-- ===== src/Probe/Goal/Summary.antt =====
-- nav_probe.py: the numbers of the summary, and `run_goal`.
use ros2_ws_gp.Common.{
  ℕ, Bool, ◌||◌, Option, none, some, List, [], ◌∷◌, map, length, is_empty, if◌then◌else◌,
}
use ros2_ws_gp.Common.Text.{Text}
use ros2_ws_gp.Override.Floats.{Floats, zero_float, abs_float}
use ros2_ws_gp.Probe.{Point, path_metrics}
use ros2_ws_gp.Probe.Steering.{
  Outcome, outcome_of, inflated, steer_at_clamp_pct, reverse_pct, past_clamp_pct,
}
use ros2_ws_gp.Probe.Goal.{Maths, Measured, Probe, Pass, Heard, hear, sample_while, cleared}
use ros2_ws_gp.Probe.Goal.Numbers.{sort, median, p95}

-- `steer_clamp` is STEER_CLAMP.
module _ (R : Floats) (maths : Maths R) (wheelbase steer_clamp : R.Float) where
  open R use {Float, decimal, add, sub, mul, div}

  abbrev rounded : ℕ → Option Float → Option Float
  rounded digits none = none
  rounded digits (some v) = some (maths.round digits v)

  -- The values that are there.
  unfoldable pub present : {A : Type 0} → List (Option A) → List A
  present [] = []
  present (none ∷ xs) = present xs
  present (some x ∷ xs) = x ∷ present xs

  unfoldable pub last_of : {A : Type 0} → List A → Option A
  last_of [] = none
  last_of (x ∷ []) = some x
  last_of (x ∷ y ∷ xs) = last_of (y ∷ xs)

  unfoldable pub travelled : List (Measured R maths wheelbase) → Float
  travelled samples = go (zero_float R) samples
    where
      go : Float → List (Measured R maths wheelbase) → Float
      go acc [] = acc
      go acc (s ∷ []) = acc
      go acc (s ∷ t ∷ rest) = go (add acc (maths.dist s.at t.at)) (t ∷ rest)

  -- `math.dist(s[0], s[3])` of the samples with a localisation
  abbrev location_error : Measured R maths wheelbase → Option Float
  location_error s = elim s.located [ none ↦ none | some p ↦ some (maths.dist s.at p) ]

  -- The keys that the samples give.
  pub record Course : Type 0 where
    pub final_xy_error_m : Float
    pub final_pose : Float × Float
    pub loc_error_final_m : Option Float
    pub loc_error_median_m : Option Float
    pub loc_error_p95_m : Option Float
    pub xtrack_median_m : Option Float
    pub xtrack_p95_m : Option Float
    pub distance_travelled_m : Float

  unfoldable pub course_of : Point R → List (Measured R maths wheelbase) → Option Course
  course_of goal samples = elim (last_of samples) [
    | none ↦ none
    | some last ↦
        (let locs = present (map location_error samples) in
          let xtes = present (map (λ s. s.xte) samples) in
          some (record {
            final_xy_error_m =
                maths.round 3 (maths.hypot (sub last.at.x goal.x) (sub last.at.y goal.y));
            final_pose = (maths.round 2 last.at.x, maths.round 2 last.at.y);
            loc_error_final_m = elim last.located [
              | none ↦ none
              | some p ↦ some (maths.round 3 (maths.hypot (sub last.at.x p.x) (sub last.at.y p.y)))
            ];
            loc_error_median_m = rounded 3 (median R locs);
            loc_error_p95_m = if is_empty locs then none else rounded 3 (p95 R maths.int locs);
            xtrack_median_m = rounded 3 (median R xtes);
            xtrack_p95_m = if is_empty xtes then none else rounded 3 (p95 R maths.int xtes);
            distance_travelled_m = maths.round 2 (travelled samples);
          }))
  ]

  -- The keys that the wheels give: the percentile, the largest, and the share at the clamp.
  unfoldable pub steering_of : List Float → Option (Option Float × Option Float × Float)
  steering_of [] = none
  steering_of (s ∷ steer) =
      let a = map (abs_float R) (s ∷ steer) in
      some (
        rounded 4 (p95 R maths.int a),
        rounded 4 (last_of (sort R a)),
        maths.round 1
            (steer_at_clamp_pct R maths.atan maths.hypot wheelbase steer_clamp (s ∷ steer)),
      )

  -- The keys about the smoother.
  pub record Smoother : Type 0 where
    pub mppi_steer_max : Option Float
    pub smoothed_steer_max : Option Float
    pub mppi_past_clamp_pct : Float
    pub smoothed_past_clamp_pct : Float
    pub smoother_inflated_pct : Float

  abbrev Sampled : Type 0
  Sampled = List (Float × Float)

  unfoldable pub smoother_of : Sampled → Sampled → Option Smoother
  smoother_of ins outs =
      if is_empty ins || is_empty outs
      then none
      else some (record {
        mppi_steer_max = rounded 4 (last_of (sort R (map (λ s. s.1) ins)));
        smoothed_steer_max = rounded 4 (last_of (sort R (map (λ s. s.1) outs)));
        mppi_past_clamp_pct =
            maths.round 2 (past_clamp_pct R maths.atan maths.hypot wheelbase steer_clamp ins);
        smoothed_past_clamp_pct =
            maths.round 2 (past_clamp_pct R maths.atan maths.hypot wheelbase steer_clamp outs);
        smoother_inflated_pct = maths.round 1 (
            div
              (mul (decimal 100 0)
                (decimal (inflated R maths.atan maths.hypot wheelbase ins outs) 0))
              (decimal (length outs) 0));
      })

  -- The keys about the plans: how many were measured, and three medians. A radius is infinite where a
  -- plan has none.
  pub record Plans : Type 0 where
    pub plans : ℕ
    pub reversals_per_m : Option Float
    pub plan_min_radius_m : Option Float
    pub plan_cusps : Option Float

  abbrev radius_or : Float → Option Float → Float
  radius_or infinite none = infinite
  radius_or infinite (some r) = r

  unfoldable pub plans_of : Float → List (List (Point R)) → Option Plans
  plans_of infinite snapshots =
      let pms = present (map (path_metrics R maths.dist) snapshots) in
      if is_empty pms
      then none
      else some (record {
        plans = length pms;
        reversals_per_m = rounded 3 (median R (map (λ m. m.reversals_per_m) pms));
        plan_min_radius_m = rounded 3 (median R (map (λ m. radius_or infinite m.min_radius) pms));
        plan_cusps = rounded 1 (median R (map (λ m. decimal m.cusps 0) pms));
      })

  -- `out`
  pub data Result : Type 0 where
    rejected : Result
    ran :
        Point R
        → Outcome
        → Float
        → Option Course
        → Option (Option Float × Option Float × Float)
        → Option Float
        → Option Float
        → Option Smoother
        → Option Plans
        → Result

  unfoldable pub summary : Float → Point R → Option ℕ → Float → Probe R maths wheelbase → Result
  summary infinite goal status dur s =
      let c = s.collected in
      ran goal (outcome_of status) (maths.round 1 dur) (course_of goal s.samples)
        (steering_of c.steer)
        (if is_empty c.cmd_steer
          then none
          else rounded 4 (p95 R maths.int (map (abs_float R) c.cmd_steer)))
        (if is_empty c.cmd_vx
          then none
          else some (maths.round 1 (reverse_pct R maths.atan maths.hypot wheelbase c.cmd_vx)))
        (smoother_of c.nav_in c.nav_out) (plans_of infinite s.plans)

  -- What a goal meets: what is heard while it is reset and while the server answers, whether the server
  -- accepts it, the passes of the loop, and then the time that has passed and the status of the result,
  -- if it is there.
  pub record GoalAnswers : Type 0 where
    pub settling : List (Heard R maths wheelbase)
    pub waiting : List (Heard R maths wheelbase)
    pub accepts : Bool
    pub passes : List (Pass R maths wheelbase)
    pub elapsed : Float
    pub status : Option ℕ

  unfoldable pub hear_all :
      Text → List (Heard R maths wheelbase) → Probe R maths wheelbase → Probe R maths wheelbase
  hear_all model [] s = s
  hear_all model (h ∷ hs) s = hear_all model hs (hear R maths wheelbase model (some h) s)

  unfoldable pub run_goal :
      Float
      → Text
      → Point R
      → Float
      → GoalAnswers
      → Probe R maths wheelbase
      → Result × Probe R maths wheelbase
  run_goal infinite model goal timeout answers s =
      let sent = hear_all model answers.waiting (cleared R maths wheelbase s) in
      let sampled = sample_while R maths wheelbase model goal timeout answers.passes sent in
      if answers.accepts
      then (summary infinite goal answers.status answers.elapsed sampled, sampled)
      else (rejected, sent)
