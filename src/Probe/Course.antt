-- ===== src/Probe/Course.antt =====
-- nav_probe.py: the reset before each goal, and `main`, up to its output.
pub mod Results
use ros2_ws_gp.Common.{
  ℕ, zero, suc, ◌+◌, ◌-◌, ◌==◌, Bool, true, false, not, ◌&&◌, ◌||◌, Option, none, some, List, [],
  ◌∷◌, ◌++◌, map, length, is_empty, select, if◌then◌else◌,
}
use ros2_ws_gp.Common.Text.{Text, split_on}
use ros2_ws_gp.Override.Floats.{Floats, zero_float}
use ros2_ws_gp.Probe.{Point}
use ros2_ws_gp.Probe.Steering.{succeeded}
use ros2_ws_gp.Probe.Goal.{Maths, Probe}
use ros2_ws_gp.Probe.Goal.Summary.{Result, rejected, ran, GoalAnswers, hear_all, run_goal}

module _ (R : Floats) (maths : Maths R) (wheelbase steer_clamp : R.Float) where
  open R use {Float, decimal, div, neg}

  -- What `reset` asks for, in its order.
  pub data Command : Type 0 where
    set_entity : (x y z qz qw : Float) → Command
    initial_pose : (x y qz qw cov_x cov_y cov_yaw : Float) → Command
    clear_global clear_local : Command
    wait : Float → Command

  -- Which services come up in time.
  pub record Ready : Type 0 where
    pub set_state : Bool
    pub global_costmap : Bool
    pub local_costmap : Bool

  abbrev when : Bool → Command → List Command
  when true command = command ∷ []
  when false command = []

  unfoldable pub reset : Ready → Float → Float → Float → List Command
  reset ready x y yaw =
      let half = div yaw (decimal 2 0) in
      when ready.set_state (set_entity x y (decimal 5 2) (maths.sin half) (maths.cos half))
      ++ (wait (decimal 1 0)
          ∷ initial_pose x y (maths.sin half) (maths.cos half) (decimal 25 2) (decimal 25 2)
              (decimal 68 3)
          ∷ wait (decimal 2 0)
          ∷ (when ready.global_costmap clear_global
              ++ (when ready.local_costmap clear_local ++ wait (decimal 1 0) ∷ [])))

  -- `COURSE`, each with the yaw 0.
  unfoldable pub standard_course : List (List Float)
  standard_course =
      (decimal 50 1 ∷ decimal 40 1 ∷ zero_float R ∷ [])
      ∷ (neg (decimal 50 1) ∷ neg (decimal 30 1) ∷ zero_float R ∷ [])
      ∷ (decimal 60 1 ∷ neg (decimal 40 1) ∷ zero_float R ∷ [])
      ∷ (neg (decimal 70 1) ∷ decimal 15 1 ∷ zero_float R ∷ [])
      ∷ []

  -- `float` of each text; `none` is a ValueError.
  unfoldable pub floats_of : (Text → Option Float) → List Text → Option (List Float)
  floats_of float [] = some []
  floats_of float (t ∷ ts) = add_float (float t) (floats_of float ts)
    where
      add_float : Option Float → Option (List Float) → Option (List Float)
      add_float (some v) (some vs) = some (v ∷ vs)
      add_float _ _ = none

  -- `(0.0,) * n`
  abbrev zeros : ℕ → List Float
  zeros zero = []
  zeros (suc n) = zero_float R ∷ zeros n

  unfoldable pub pad_goal : ℕ → Option (List Float) → Option (List Float)
  pad_goal parts none = none
  pad_goal parts (some vs) = some (vs ++ zeros (3 - parts))

  unfoldable pub parse_goal : (Text → Option Float) → Text → Option (List Float)
  parse_goal float g =
      let parts = split_on b',' g in pad_goal (length parts) (floats_of float parts)

  unfoldable pub parse_goals : (Text → Option Float) → List Text → Option (List (List Float))
  parse_goals float [] = some []
  parse_goals float (g ∷ gs) = add_goal (parse_goal float g) (parse_goals float gs)
    where
      add_goal : Option (List Float) → Option (List (List Float)) → Option (List (List Float))
      add_goal (some goal) (some goals) = some (goal ∷ goals)
      add_goal _ _ = none

  -- The results and the probe after the goals, numbered from `k`; the Boolean is false where a goal is
  -- not a triple, which is a ValueError.
  unfoldable pub run_goals :
      Float
      → Text
      → Float
      → (ℕ → GoalAnswers R maths wheelbase steer_clamp)
      → ℕ
      → List (List Float)
      → Probe R maths wheelbase
      → Bool × List (Result R maths wheelbase steer_clamp)
  run_goals infinite model timeout answers k [] s = (true, [])
  run_goals infinite model timeout answers k ((gx ∷ gy ∷ gyaw ∷ []) ∷ goals) s =
      let settled = hear_all R maths wheelbase steer_clamp model (answers k).settling s in
      let (result, s') =
        run_goal R maths wheelbase steer_clamp infinite model (record { x = gx; y = gy }) timeout
          (answers k) settled in
      let (ok, results) = run_goals infinite model timeout answers (suc k) goals s' in
      (ok, result ∷ results)
  run_goals infinite model timeout answers k (goal ∷ goals) s = (false, [])

  abbrev pub is_success : Result R maths wheelbase steer_clamp → Bool
  is_success (ran goal succeeded dur course steer cmd reverse smoother plans) = true
  is_success _ = false

  -- How the script ends: at the usage text, at a ValueError, without the action server, or with the
  -- number of goals that succeeded and all results, or at a ValueError after some results.
  pub data End : Type 0 where
    usage value_error no_server : End
    summed_up : ℕ → List (Result R maths wheelbase steer_clamp) → End
    cut_short : List (Result R maths wheelbase steer_clamp) → End

  unfoldable pub sum_up : Bool × List (Result R maths wheelbase steer_clamp) → End
  sum_up (true, results) = summed_up (length (select is_success results)) results
  sum_up (false, results) = cut_short results

  pub record Arguments : Type 0 where
    pub course : Bool
    pub goals : List Text
    pub start : Text
    pub timeout : Float

  unfoldable pub with_goals :
      Float
      → Text
      → (Text → Option Float)
      → Bool
      → (ℕ → GoalAnswers R maths wheelbase steer_clamp)
      → Arguments
      → Option (List (List Float))
      → Probe R maths wheelbase
      → End
  with_goals infinite model float server answers args none s = value_error
  with_goals infinite model float server answers args (some []) s = usage
  with_goals infinite model float server answers args (some (goal ∷ goals)) s =
      elim (floats_of float (split_on b',' args.start)) [
        | some (sx ∷ sy ∷ syaw ∷ []) ↦
            if server
            then sum_up (run_goals infinite model args.timeout answers 0 (goal ∷ goals) s)
            else no_server
        | _ ↦ value_error
      ]

  unfoldable pub main :
      Float
      → Text
      → (Text → Option Float)
      → Bool
      → (ℕ → GoalAnswers R maths wheelbase steer_clamp)
      → Arguments
      → Probe R maths wheelbase
      → End
  main infinite model float server answers args s =
      with_goals infinite model float server answers args
        (if args.course then some standard_course else parse_goals float args.goals) s
