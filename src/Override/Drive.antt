-- ===== src/Override/Drive.antt =====
-- From axis values to a command: the triggers, the speed and the steering angle.
use ros2_ws_gp.Common.{Bool, true, false, not, ◌&&◌, if◌then◌else◌}
use ros2_ws_gp.Override.Floats.{Floats, zero_float, one_float, min_float, max_float, abs_float}

module _ (R : Floats) where
  open R use {Float, decimal, add, sub, mul, div, neg, tan, ltb}

  pub record Twist : Type 0 where
    pub vx : Float
    pub wz : Float

  abbrev pub stop : Twist
  stop = record { vx = zero_float R; wz = zero_float R }

  pub record Caps : Type 0 where
    pub max_fwd : Float
    pub max_rev : Float
    pub max_steer : Float
    pub steer_sign : Float

  abbrev pub wheelbase : Float
  wheelbase = decimal 23529 5

  abbrev pub rest_thresh : Float
  rest_thresh = decimal 90 2

  abbrev pub stick_deadzone : Float
  stick_deadzone = decimal 12 2

  abbrev pub trigger_deadzone : Float
  trigger_deadzone = decimal 5 2

  -- `axis_val >= REST_THRESH`
  unfoldable pub at_rest : Float → Bool
  at_rest axis_val = not (ltb axis_val rest_thresh)

  -- `max(0.0, min(1.0, (1.0 - axis_val) / 2.0))`
  unfoldable pub pressed : Float → Float
  pressed axis_val =
      max_float R (zero_float R)
        (min_float R (one_float R) (div (sub (one_float R) axis_val) (decimal 2 0)))

  -- `trigger`: the value, given whether the trigger is armed once this reading is taken.
  unfoldable pub trigger : Bool → Float → Float
  trigger false axis_val = zero_float R
  trigger true axis_val =
      if ltb (pressed axis_val) trigger_deadzone then zero_float R else pressed axis_val

  unfoldable pub speed : Caps → Float → Float → Float
  speed caps fwd rev =
      if ltb (zero_float R) fwd && ltb (zero_float R) rev
      then zero_float R
      else sub (mul fwd caps.max_fwd) (mul rev caps.max_rev)

  -- The stick after its dead zone.
  unfoldable pub centred : Float → Float
  centred stick = if ltb (abs_float R stick) stick_deadzone then zero_float R else stick

  unfoldable pub steering : Caps → Float → Float
  steering caps axis_val =
      let stick = centred (mul axis_val caps.steer_sign) in
      max_float R (neg caps.max_steer) (min_float R caps.max_steer (mul stick caps.max_steer))

  unfoldable pub command : Caps → Float → Float → Float → Twist
  command caps fwd rev axis_val =
      let vx = speed caps fwd rev in
      record { vx = vx; wz = div (mul vx (tan (steering caps axis_val))) wheelbase }
