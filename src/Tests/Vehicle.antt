-- ===== src/Tests/Vehicle.antt =====
-- The nodes of the vehicle at concrete inputs, with numbers for floats.
use ros2_ws_gp.Common.{
  Option, ℕ, ◌+◌, ◌*◌, ◌-◌, ◌^◌, ◌≤◌, ◌≡◌, refl, ◌⊎◌, true, false, ◌==◌, none, some, List, [], ◌∷◌,
  arith, if◌then◌else◌, ltb, All,
}
use ros2_ws_gp.Override.Floats.{Floats, min_float, max_float, abs_float}
use ros2_ws_gp.Override.PadMap.{PadMap, Indices, usb_map, profile, specified, resolve_pad_map}
use ros2_ws_gp.Override.Drive.{
  Twist, stop, Caps, steering, command, at_rest, trigger, pressed, speed, centred,
}
use ros2_ws_gp.Override.Tick.{
  Joy, Args, State, start, reading, arm, nag, engage, publish, drive, on_fresh, on_lost, tick,
  disarm, on_joy,
}
use ros2_ws_gp.Override.Arming.{Happening, Seen, hears, ticks, after, Commands, run-Commands}
use ros2_ws_gp.Override.Tail.{Disengaged, IsTail, outputs, ended-IsTail}
use ros2_ws_gp.Override.Bounds.{Laws, Honours, steering-within, resolve_pad_map-Honours}
use ros2_ws_gp.Override.Evdev.{InputEvent, absolute, key, Range, Pump}
use ros2_ws_gp.Common.Text.{Text, codes, lower, text_beq}
use ros2_ws_gp.Override.Prepare.{
  teleop, evdev, Options, reads, detect, looks_like_pad, occurs_in, filled, prepare,
}
use ros2_ws_gp.Override.Prepare.Guards.{prepare-resolved}
use ros2_ws_gp.Camera
use ros2_ws_gp.Camera.Released
use ros2_ws_gp.Imu
use ros2_ws_gp.Imu.Calibration
use ros2_ws_gp.Activation.{Name, Label, unconfigured, active, Services, order, code, main}
use ros2_ws_gp.Activation.Startup.{rounds, moved, Lifecycle, main-startup}

abbrev pub numbers : Floats
numbers = record {
  Float = ℕ;
  decimal = λ n k. n * 10 ^ (5 - k);
  add = λ a b. a + b;
  sub = λ a b. a - b;
  mul = λ a b. a * b;
  div = λ a b. a;
  neg = λ a. 0;
  tan = λ a. a;
  ltb = λ a b. ltb a b;
}

numbers-Laws : Laws numbers
numbers-Laws = record { lt_asymm = λ a b h. ground arith }

abbrev caps : Caps numbers
caps = record { max_fwd = 10; max_rev = 5; max_steer = 3; steer_sign = 1 }

abbrev args : Args numbers
args = record { tail_ms = 500; joy_timeout_ms = 300; caps = caps }

-- The message of a pad whose right trigger is pressed and whose RB is held.
abbrev held : Joy numbers
held = record { axes = 0 ∷ 0 ∷ 100000 ∷ 0 ∷ 0 ∷ 0 ∷ []; buttons = 0 ∷ 0 ∷ 0 ∷ 0 ∷ 0 ∷ 1 ∷ [] }

abbrev driving : State numbers
driving = record {
  joy = some held;
  joy_t = 1000;
  seen_joy = true;
  armed_rt = true;
  armed_lt = true;
  nag_t = 0;
  engaged = true;
  tail_until = 0;
  warned_idx = false;
  pad = some usb_map;
}

abbrev forward : Twist numbers
forward = record { vx = 1000000; wz = 0 }

-- A pad that has rested, and then presses its right trigger with RB held.
abbrev rested : Joy numbers
rested = record {
  axes = 0 ∷ 0 ∷ 100000 ∷ 0 ∷ 0 ∷ 100000 ∷ [];
  buttons = 0 ∷ 0 ∷ 0 ∷ 0 ∷ 0 ∷ 0 ∷ [];
}

abbrev told : Indices
told = record { rt_axis = some 5; lt_axis = some 2; steer_axis = some 0; rb_button = some 5 }

abbrev driven : List (Happening numbers)
driven = hears 1000 rested ∷ ticks 1010 ∷ hears 1050 held ∷ []

abbrev pressed_on : State numbers × List (Seen numbers)
pressed_on = after numbers args told driven (start numbers told, [])

commanded : (tick numbers args 1100 pressed_on.0).1 ≡ some forward
unfolding after start on_joy resolve_pad_map profile specified tick on_fresh drive reading publish
    engage nag arm at_rest trigger pressed command speed steering centred min_float max_float
    abs_float
commanded = refl

run-Commands_example :
    (forward ≡ stop numbers) ⊎ Commands numbers args told 1100 pressed_on.0 pressed_on.1
run-Commands_example = run-Commands numbers args told driven 1100 forward commanded

still_off : Disengaged numbers args told (ticks 2000 ∷ ticks 2400 ∷ ticks 2600 ∷ []) driving
unfolding tick on_lost disarm
still_off = (refl, (refl, (refl, tt)))

ended-IsTail_example :
    IsTail numbers args told 2500
      (outputs numbers args told (ticks 2000 ∷ ticks 2400 ∷ ticks 2600 ∷ []) driving)
ended-IsTail_example =
    ended-IsTail numbers args told 2000 (ticks 2400 ∷ ticks 2600 ∷ []) driving refl still_off

steering-within_example :
    (ltb 3 (steering numbers caps 200) ≡ false) × (ltb (steering numbers caps 200) 0 ≡ false)
steering-within_example = steering-within numbers numbers-Laws caps 200 refl

abbrev chosen : Indices
chosen = record { rt_axis = none; lt_axis = some 3; steer_axis = none; rb_button = none }

abbrev mixed : PadMap
mixed = record { rt_axis = 5; lt_axis = 3; steer_axis = 0; rb_button = 5 }

resolved : resolve_pad_map 8 12 chosen ≡ some mixed
unfolding resolve_pad_map profile specified
resolved = refl

resolve_pad_map-Honours_example : Honours chosen mixed
resolve_pad_map-Honours_example = resolve_pad_map-Honours 8 12 chosen {m = mixed} resolved

unresolved : resolve_pad_map 7 12 chosen ≡ none
unfolding resolve_pad_map profile specified
unresolved = refl

abbrev capture : List Camera.Event
capture =
    Camera.trigger (Camera.spawned 7) Camera.exits
    ∷ Camera.image (Camera.jpeg (1 ∷ [])) Camera.lingers
    ∷ Camera.trigger (Camera.spawned 8) Camera.exits
    ∷ []

capture_returns : (Camera.spin capture Camera.fresh).0 ≡ true
unfolding Camera.spin Camera.step Camera.trigger_compression_sub Camera.image_callback
    Camera.cleanup Camera.fresh
capture_returns = refl

spin-IsSound_example : Released.IsSound (Camera.spin capture Camera.fresh).1
spin-IsSound_example = Released.spin-IsSound capture capture_returns

abbrev scale : Imu.Parameters numbers
scale = record { k = 2; bias_samples = 2 }

abbrev sample : ℕ → Imu.Imu numbers
sample z = record { angular_velocity_z = z; angular_velocity_covariance = [] }

run-calibrated_example :
    Calibration.Corrected numbers scale 7
      (sample 9 ∷ [])
      (Imu.run numbers scale
        (sample 9 ∷ [])
        (Imu.run numbers scale (sample 3 ∷ sample 4 ∷ []) (Imu.fresh numbers)).1).0
run-calibrated_example =
    Calibration.run-calibrated numbers scale (sample 3) (sample 4 ∷ []) (sample 9 ∷ []) refl

-- The nodes of the navigation as their labels.
abbrev Labels : Type 0
Labels = Name → Label

abbrev labelled : Services Labels
labelled = record {
  state_up = λ name w. (true, w);
  get_state = λ name w. (some (w name), w);
  change_up = λ name w. (true, w);
  change_state =
      λ name tid w. (some true, λ k. if code name == code k then moved tid (w k) else w k);
}

abbrev labelled_cycle : Lifecycle labelled
labelled_cycle = record {
  label = λ w. w;
  state_served = λ name w. refl;
  reports = λ name w. refl;
  change_served = λ name w. refl;
  changes = λ name k tid w e. rw e refl;
  keeps_others = λ name k tid w e. rw e refl;
}

abbrev unstarted : Labels
unstarted name = unconfigured

startable : (k : Name) → rounds (unstarted k) ≤ 3
startable k = omega arith

main-startup_example :
    ((main labelled unstarted).0 ≡ true) × All (λ k. (main labelled unstarted).1 k ≡ active) order
main-startup_example = main-startup labelled_cycle unstarted startable

-- The range of the right trigger of a pad with eight axes.
abbrev ranges : ℕ → Option (Range numbers)
ranges code = if code == 5 then some (record { lo = 0; hi = 255 }) else none

abbrev eight_axes : Pump numbers
eight_axes = record {
  axes = 0 ∷ 0 ∷ 0 ∷ 0 ∷ 0 ∷ 0 ∷ 0 ∷ 0 ∷ [];
  btns = 0 ∷ 0 ∷ 0 ∷ 0 ∷ 0 ∷ 0 ∷ 0 ∷ 0 ∷ 0 ∷ 0 ∷ 0 ∷ 0 ∷ 0 ∷ 0 ∷ 0 ∷ 0 ∷ [];
}

abbrev pulled : List (ℕ × InputEvent ℕ)
pulled = (10, absolute 5 200) ∷ (20, key 0x135 true) ∷ []

abbrev options : Options
options = record {
  topic = teleop;
  device_checked = true;
  input = evdev;
  event = none;
  indices = chosen;
}

abbrev devices : List (Text × Text)
devices =
    (codes "/dev/input/event0", codes "Power Button")
    ∷ (codes "/dev/input/event3", codes "Wireless Gamepad")
    ∷ []

prepared : prepare options devices ≡ reads (codes "/dev/input/event3") (filled chosen)
unfolding prepare detect looks_like_pad occurs_in text_beq lower
prepared = refl

prepare-resolved_example : resolve_pad_map 9 9 (filled chosen) ≡ some mixed
prepare-resolved_example =
    prepare-resolved options devices (codes "/dev/input/event3") (filled chosen) 9 9 prepared
