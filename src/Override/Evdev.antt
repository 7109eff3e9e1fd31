-- ===== src/Override/Evdev.antt =====
-- The reader of `/dev/input/eventN`: `--input evdev` makes the messages that `/joy` would have brought.
use ros2_ws_gp.Common.{
  ℕ, zero, suc, ◌-◌, Bool, true, false, ◌||◌, ◌&&◌, ◌==◌, Option, none, some, List, [], ◌∷◌, leb,
  ltb, length, if◌then◌else◌,
}
use ros2_ws_gp.Override.Floats.{Floats, zero_float, one_float}
use ros2_ws_gp.Override.PadMap.{PadMap, Indices}
use ros2_ws_gp.Override.Tick.{State, on_joy}

-- An event of the kernel, by its type: EV_ABS with its code and value, EV_KEY with its code and whether
-- the value is not 0, or another.
pub data InputEvent (F : Type 0) : Type 0 where
  absolute : ℕ → F → InputEvent F
  key : ℕ → Bool → InputEvent F
  other : InputEvent F

abbrev pub set_at : {A : Type 0} → ℕ → A → List A → List A
set_at i x [] = []
set_at zero x (y ∷ ys) = x ∷ ys
set_at (suc i) x (y ∷ ys) = y ∷ set_at i x ys

abbrev is_index : ℕ → Option ℕ → Bool
is_index code none = false
is_index code (some i) = i == code

-- `code in (args.rt_axis, args.lt_axis)`: the indices that `prepare` has filled in, and the same ones
-- again once the first message has settled the pad map.
unfoldable pub is_trigger : Indices → Option PadMap → ℕ → Bool
is_trigger i none code = is_index code i.rt_axis || is_index code i.lt_axis
is_trigger i (some pad) code = pad.rt_axis == code || pad.lt_axis == code

module _ (R : Floats) where
  open R use {Float, decimal, sub, mul, div, ltb as lt_float}

  -- The least and the greatest value of an axis.
  pub record Range : Type 0 where
    pub lo : Float
    pub hi : Float

  -- The lists `axes` and `btns`.
  pub record Pump : Type 0 where
    pub axes : List Float
    pub btns : List ℕ

  -- How far the value is between the ends, or `middle` where there is nothing between them.
  unfoldable pub fraction : Float → Range → Float → Float
  fraction middle r val = if lt_float r.lo r.hi then div (sub val r.lo) (sub r.hi r.lo) else middle

  -- SDL's convention: a trigger is +1 released and -1 pressed, another axis goes from -1 to +1.
  unfoldable pub normalise : Bool → Range → Float → Float
  normalise true r val = sub (one_float R) (mul (decimal 2 0) (fraction (zero_float R) r val))
  normalise false r val = sub (mul (decimal 2 0) (fraction (decimal 5 1) r val)) (one_float R)

  abbrev pub set_axis : Bool → ℕ → Float → Option Range → Pump → Pump
  set_axis trigger code val none pump = pump
  set_axis trigger code val (some r) pump =
      if ltb code (length pump.axes)
      then record pump { axes = set_at code (normalise trigger r val) pump.axes }
      else pump

  -- `rng.get`, as a function.
  module _ (range_of : ℕ → Option Range) where
    -- What one event changes.
    unfoldable pub take_event : (ℕ → Bool) → InputEvent Float → Pump → Pump
    take_event triggers (absolute code val) pump =
        set_axis (triggers code) code val (range_of code) pump
    take_event triggers (key code down) pump =
        if leb 0x130 code && ltb (code - 0x130) (length pump.btns)
        then record pump { btns = set_at (code - 0x130) (if down then 1 else 0) pump.btns }
        else pump
    take_event triggers other pump = pump

    -- One turn of `pump`: the event, then the message, which goes to `on_joy`.
    unfoldable pub deliver : Indices → ℕ → InputEvent Float → Pump × State R → Pump × State R
    deliver i now event (pump, st) =
        let pump' = take_event (is_trigger i st.pad) event pump in
        (pump', on_joy R i now (record { axes = pump'.axes; buttons = pump'.btns }) st)

    unfoldable pub deliver_all :
        Indices → List (ℕ × InputEvent Float) → Pump × State R → Pump × State R
    deliver_all i [] s = s
    deliver_all i ((now, event) ∷ events) s = deliver_all i events (deliver i now event s)
