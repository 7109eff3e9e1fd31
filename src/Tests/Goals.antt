-- ===== src/Tests/Goals.antt =====
-- A course of the navigation probe, with numbers for floats.
use ros2_ws_gp.Common.{
  ℕ, ◌+◌, ◌-◌, ◌/◌, ◌≤◌, ◌≡◌, refl, Bool, true, false, Option, none, some, List, [], ◌∷◌, ◌++◌,
  length, select, All, arith,
}
use ros2_ws_gp.Common.Text.{Text, codes, split_on}
use ros2_ws_gp.Probe.{Point}
use ros2_ws_gp.Probe.Goal.{Maths, Probe, BodyPose, Pass}
use ros2_ws_gp.Probe.Goal.Numbers.{p95}
use ros2_ws_gp.Probe.Goal.Numbers.Ranks.{IsOrdered, p95-splits}
use ros2_ws_gp.Probe.Goal.Summary.{GoalAnswers}
use ros2_ws_gp.Probe.Course.{Arguments, floats_of, parse_goal, parse_goals, pad_goal}
use ros2_ws_gp.Tests.Vehicle.{numbers}

-- `int`, of the product of two numbers that count 1 / 10^5.
abbrev cut : ℕ → ℕ
cut x = x / 10000000000

cut_law : (k : ℕ) → cut (numbers.mul (numbers.decimal 95 2) (numbers.decimal k 0)) ≤ k
cut_law k = omega arith

abbrev maths : Maths numbers
maths = record {
  atan = λ x. x;
  atan2 = λ y x. y;
  sin = λ x. x;
  cos = λ x. x;
  hypot = λ x y. x + y;
  dist = λ a b. (a.x - b.x) + (b.x - a.x);
  round = λ digits x. x;
  int = cut;
}

numbers-IsOrdered : IsOrdered numbers
numbers-IsOrdered = record { asym = λ a b h. ground arith; trans = λ a b c h k. ground arith }

p95-splits_example :
    (lows : List ℕ) × (v : ℕ) × (highs : List ℕ) × (p95 numbers cut (7 ∷ 5 ∷ 6 ∷ []) ≡ some v)
    × ((test : ℕ → Bool)
        → length (select test (lows ++ v ∷ highs)) ≡ length (select test (7 ∷ 5 ∷ 6 ∷ [])))
    × (length lows ≡ 1)
    × All (λ z. numbers.ltb v z ≡ false) lows
    × All (λ z. numbers.ltb z v ≡ false) highs
p95-splits_example = p95-splits numbers cut (7 ∷ 5 ∷ 6 ∷ []) numbers-IsOrdered cut_law (omega arith)

abbrev origin : Point numbers
origin = record { x = 0; y = 0 }

abbrev still : BodyPose numbers maths 1
still = record { position = origin; orientation = record { qx = 0; qy = 0; qz = 0; qw = 1 } }

-- The probe after a goal, with the plan of it.
abbrev before : Probe numbers maths 1
before = record {
  latest = record { truth = some still; amcl = none; plan = origin ∷ record { x = 1; y = 0 } ∷ [] };
  collected = record { nav_in = []; nav_out = []; steer = []; cmd_steer = []; cmd_vx = [] };
  samples = [];
  trace = [];
  plans = [];
}

abbrev silent_pass : Pass numbers maths 1
silent_pass = record { elapsed = 0; finished = false; heard = none; measured_at = 0 }

abbrev answers : ℕ → GoalAnswers numbers maths 1 1
answers k = record {
  settling = [];
  waiting = [];
  accepts = true;
  passes = silent_pass ∷ [];
  elapsed = 3;
  status = some 4;
}

-- A number for any text.
abbrev float : Text → Option ℕ
float t = some (length t)

abbrev two_goals : Arguments numbers maths 1 1
two_goals = record {
  course = false;
  goals = codes "5,44" ∷ codes "6,3,1" ∷ [];
  start = codes "0,0,0";
  timeout = 90;
}

two_parsed :
    parse_goals numbers maths 1 1 float two_goals.goals
    ≡ some ((1 ∷ 2 ∷ 0 ∷ []) ∷ (1 ∷ 1 ∷ 1 ∷ []) ∷ [])
unfolding parse_goals parse_goal pad_goal floats_of split_on
two_parsed = refl

start_parsed :
    floats_of numbers maths 1 1 float (split_on b',' two_goals.start) ≡ some (1 ∷ 1 ∷ 1 ∷ [])
unfolding floats_of split_on
start_parsed = refl

first_short : length (split_on b',' (codes "5,44")) ≤ 3
unfolding split_on
first_short = omega arith

second_short : length (split_on b',' (codes "6,3,1")) ≤ 3
unfolding split_on
second_short = omega arith
