-- ===== src/Params/Swap.antt =====
-- mk_rpp.py: the FollowPath block of a parameter file is replaced by the regulated pure pursuit.
-- A file is its text cut at the line ends.
pub mod Block
pub mod Parts
use ros2_ws_gp.Common.{
  ℕ, zero, suc, ◌+◌, ◌-◌, Bool, true, false, not, ◌&&◌, Option, none, some, List, [], ◌∷◌, ◌++◌,
  leb, if◌then◌else◌, is_empty, length, take, drop, get_elem?,
}
use ros2_ws_gp.Common.Text.{Text, codes, is_space, lstrip_by, strip, text_beq}

-- `l.strip() == 'FollowPath:'`
unfoldable pub is_header : Text → Bool
is_header l = text_beq (strip l) (codes "FollowPath:")

-- `len(l) - len(l.lstrip())`
unfoldable pub indent_of : Text → ℕ
indent_of l = length l - length (lstrip_by is_space l)

-- `next(i for i, l in enumerate(lines) if ...)`, counted from `i`; `none` is StopIteration.
unfoldable pub find_start : ℕ → List Text → Option ℕ
find_start i [] = none
find_start i (l ∷ lines) =
    let rest = find_start (suc i) lines in if is_header l then some i else rest

-- `l.strip() and (len(l) - len(l.lstrip())) <= indent`
unfoldable pub ends_block : ℕ → Text → Bool
ends_block indent l = not (is_empty (strip l)) && leb (indent_of l) indent

-- The loop on `end`, over the lines from `end` on.
unfoldable pub find_end : ℕ → ℕ → List Text → ℕ
find_end indent end [] = end
find_end indent end (l ∷ lines) =
    let rest = find_end indent (suc end) lines in if ends_block indent l then end else rest

unfoldable pub rpp : List Text
rpp =
    codes "      # Regulated Pure Pursuit, swapped in for MPPI to test whether the endgame stall is"
    ∷ codes "      # specific to MPPI's sampling or is a property of the vehicle/path."
    ∷ codes
        "      # use_rotate_to_heading MUST be false: it commands an in-place rotation, which an"
    ∷ codes "      # Ackermann vehicle cannot perform. RPP also rejects the combination of"
    ∷ codes "      # use_rotate_to_heading and allow_reversing being true together, and cusped Smac"
    ∷ codes "      # paths need allow_reversing."
    ∷ codes "      # regulated_linear_scaling_min_radius matches the planner's 1.20 m so the speed"
    ∷ codes "      # regulation kicks in exactly where the vehicle is at its steering limit."
    ∷ codes
        "      plugin: \"nav2_regulated_pure_pursuit_controller::RegulatedPurePursuitController\""
    ∷ codes "      desired_linear_vel: 0.4"
    ∷ codes "      lookahead_dist: 0.6"
    ∷ codes "      min_lookahead_dist: 0.3"
    ∷ codes "      max_lookahead_dist: 0.9"
    ∷ codes "      lookahead_time: 1.5"
    ∷ codes "      transform_tolerance: 0.2"
    ∷ codes "      use_velocity_scaled_lookahead_dist: true"
    ∷ codes "      min_approach_linear_velocity: 0.05"
    ∷ codes "      approach_velocity_scaling_dist: 0.6"
    ∷ codes "      use_collision_detection: true"
    ∷ codes "      max_allowed_time_to_collision_up_to_carrot: 1.0"
    ∷ codes "      use_regulated_linear_velocity_scaling: true"
    ∷ codes "      use_cost_regulated_linear_velocity_scaling: false"
    ∷ codes "      regulated_linear_scaling_min_radius: 1.20"
    ∷ codes "      regulated_linear_scaling_min_speed: 0.15"
    ∷ codes "      use_rotate_to_heading: false"
    ∷ codes "      allow_reversing: true"
    ∷ codes "      max_robot_pose_search_dist: 10.0"
    ∷ codes "      use_interpolation: true"
    ∷ []

-- What is written, with the numbers of the message: `start` and `end`.
pub record Swapped : Type 0 where
  pub start : ℕ
  pub end : ℕ
  pub out : List Text

unfoldable pub swap_at : List Text → ℕ → Text → Swapped
swap_at lines start header =
    let end = find_end (indent_of header) (suc start) (drop (suc start) lines) in
    record { start = start; end = end; out = take (suc start) lines ++ rpp ++ drop end lines }

infixl 5 ◌>>=◌
abbrev pub ◌>>=◌ : {A B : Type 0} → Option A → (A → Option B) → Option B
none >>= f = none
some a >>= f = f a

unfoldable pub swap_block : List Text → Option Swapped
swap_block lines = do
  start ← find_start 0 lines
  header ← get_elem? lines start
  some (swap_at lines start header)
