-- ===== src/Override/Prepare.antt =====
-- The start of `main`: its arguments up to `--ros-args`, the refusals, and the device of the evdev mode.
pub mod Guards
use ros2_ws_gp.Common.{
  ℕ, Bool, true, false, not, ◌||◌, Option, none, some, List, [], ◌∷◌, any, is_empty, length, take,
  if◌then◌else◌,
}
use ros2_ws_gp.Common.Text.{Text, codes, lower, text_beq}
use ros2_ws_gp.Override.PadMap.{PadMap, Indices, usb_map, fill}

-- `_argv[:_argv.index("--ros-args")]`
unfoldable pub own_arguments : List Text → List Text
own_arguments [] = []
own_arguments (word ∷ words) =
    let rest = own_arguments words in if text_beq word (codes "--ros-args") then [] else word ∷ rest

abbrev pub teleop : Text
teleop = codes "/cmd_vel_teleop"

-- `--input`
pub data Input : Type 0 where
  joy evdev : Input

pub record Options : Type 0 where
  pub topic : Text
  pub device_checked : Bool
  pub input : Input
  pub event : Option Text
  pub indices : Indices

-- How `main` goes on: it refuses, or it listens to `/joy` or to a device.
pub data Start : Type 0 where
  refused : Start
  listens : Indices → Start
  reads : Text → Indices → Start

-- `key in name`
unfoldable pub occurs_in : Text → Text → Bool
occurs_in key [] = is_empty key
occurs_in key (c ∷ name) =
    let later = occurs_in key name in text_beq (take (length key) (c ∷ name)) key || later

unfoldable pub looks_like_pad : Text → Bool
looks_like_pad name =
    any (λ key. occurs_in key (lower name))
      (codes "pad" ∷ codes "joystick" ∷ codes "controller" ∷ codes "gamepad" ∷ [])

-- The first device that looks like a pad, of the devices by path with the names that they report.
unfoldable pub detect : List (Text × Text) → Option Text
detect [] = none
detect ((device, name) ∷ devices) =
    let later = detect devices in if looks_like_pad name then some device else later

-- `args.event`, where an empty one counts as none
abbrev pub device_of : Option Text → List (Text × Text) → Option Text
device_of none devices = detect devices
device_of (some []) devices = detect devices
device_of (some (c ∷ device)) devices = some (c ∷ device)

-- Every index is set: the USB profile, where the operator did not choose.
unfoldable pub filled : Indices → Indices
filled i =
    let p = fill i usb_map in
    record {
      rt_axis = some p.rt_axis;
      lt_axis = some p.lt_axis;
      steer_axis = some p.steer_axis;
      rb_button = some p.rb_button;
    }

abbrev pub read_device : Option Text → Indices → Start
read_device none i = refused
read_device (some device) i = reads device i

abbrev pub open_input : Input → Options → List (Text × Text) → Start
open_input joy o devices = listens o.indices
open_input evdev o devices = read_device (device_of o.event devices) (filled o.indices)

unfoldable pub prepare : Options → List (Text × Text) → Start
prepare o devices =
    if not (text_beq o.topic teleop)
    then refused
    else if not o.device_checked
    then refused
    else open_input o.input o devices
