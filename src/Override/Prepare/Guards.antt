-- ===== src/Override/Prepare/Guards.antt =====
-- What is certain once the override has started.
use ros2_ws_gp.Common.{ℕ, ◌≡◌, refl, ap, ◌∙◌, inl, inr, Option, none, some, List, arith, Bool-cases}
use ros2_ws_gp.Common.Text.{Text, text_beq}
use ros2_ws_gp.Override.PadMap.{Indices, usb_map, fill, specified, resolve_pad_map}
use ros2_ws_gp.Override.Prepare.{
  teleop, Input, joy, evdev, Options, reads, device_of, filled, read_device, open_input, prepare,
}

indices-filled :
    (d d' : Text) (found : Option Text) (i i' : Indices) → read_device found i ≡ reads d i' → i' ≡ i
indices-filled d d' none i i' e = ground arith
indices-filled d d' (some device) i i' e = ground (arith, e)

open_input-filled :
    (input : Input) (o : Options) (devices : List (Text × Text)) (d : Text) (i : Indices)
    → open_input input o devices ≡ reads d i
    → i ≡ filled o.indices
open_input-filled joy o devices d i e = ground arith
open_input-filled evdev o devices d i e =
    indices-filled d d (device_of o.event devices) (filled o.indices) i e

prepare-filled :
    (o : Options) (devices : List (Text × Text)) (d : Text) (i : Indices)
    → prepare o devices ≡ reads d i
    → i ≡ filled o.indices
unfolding prepare
prepare-filled o devices d i e = elim (Bool-cases (text_beq o.topic teleop)) [
  | inl same ↦ elim (Bool-cases o.device_checked) [
    | inl checked ↦ open_input-filled o.input o devices d i (ground (arith, e))
    | inr unchecked ↦ ground (arith, e)
  ]
  | inr differs ↦ ground (arith, e)
]

resolve-filled :
    (n_ax n_btn : ℕ) (i : Indices) → resolve_pad_map n_ax n_btn (filled i) ≡ some (fill i usb_map)
unfolding resolve_pad_map specified filled
resolve-filled n_ax n_btn i = refl

-- Where the start ends with a device that is read, that device never runs out of a pad map: whatever its
-- shape, the map in force is the operator's choice over the USB profile.
pub prepare-resolved :
    (o : Options) (devices : List (Text × Text)) (d : Text) (i : Indices) (n_ax n_btn : ℕ)
    → prepare o devices ≡ reads d i
    → resolve_pad_map n_ax n_btn i ≡ some (fill o.indices usb_map)
prepare-resolved o devices d i n_ax n_btn e =
    ap (resolve_pad_map n_ax n_btn) (prepare-filled o devices d i e)
    ∙ resolve-filled n_ax n_btn o.indices
