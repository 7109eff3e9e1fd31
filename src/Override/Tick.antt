-- ===== src/Override/Tick.antt =====
-- The state of the node, `on_joy`, `disarm` and the 20 Hz `tick`. Times are milliseconds of the
-- monotonic clock; indices are not negative.
use ros2_ws_gp.Common.{
  zero, suc, [], ◌∷◌, ℕ, ◌+◌, Bool, true, false, not, ◌||◌, ◌&&◌, Option, none, some, List, ltb,
  length, get_elem?, if◌then◌else◌,
}
use ros2_ws_gp.Override.Floats.{Floats}
use ros2_ws_gp.Override.PadMap.{PadMap, Indices, resolve_pad_map}
use ros2_ws_gp.Override.Drive.{Twist, stop, Caps, at_rest, trigger, command}

module _ (R : Floats) where
  open R use {Float}

  pub record Joy : Type 0 where
    pub axes : List Float
    pub buttons : List ℕ

  pub record Args : Type 0 where
    pub tail_ms : ℕ
    pub joy_timeout_ms : ℕ
    pub caps : Caps R

  -- `st`, and the indices as `resolve_pad_map` leaves them in `args`.
  pub record State : Type 0 where
    pub joy : Option Joy
    pub joy_t : ℕ
    pub seen_joy : Bool
    pub armed_rt : Bool
    pub armed_lt : Bool
    pub nag_t : ℕ
    pub engaged : Bool
    pub tail_until : ℕ
    pub warned_idx : Bool
    pub pad : Option PadMap

  unfoldable pub start : Indices → State
  start i = record {
    joy = none;
    joy_t = 0;
    seen_joy = false;
    armed_rt = false;
    armed_lt = false;
    nag_t = 0;
    engaged = false;
    tail_until = 0;
    warned_idx = false;
    pad = none;
  }

  -- `on_joy`: the first message settles the pad map. Without one the process has exited.
  unfoldable pub on_joy : Indices → ℕ → Joy → State → State
  on_joy i now msg st =
      let heard = record st { joy = some msg; joy_t = now; seen_joy = true } in
      if st.seen_joy
      then heard
      else record heard { pad = resolve_pad_map (length msg.axes) (length msg.buttons) i }

  unfoldable pub disarm : Args → ℕ → State → State
  disarm args now st = record st {
    armed_rt = false;
    armed_lt = false;
    engaged = false;
    tail_until = if st.engaged then now + args.tail_ms else st.tail_until;
  }

  -- Zeros in the tail window, then silence.
  unfoldable pub tail_or_silence : ℕ → State → Option (Twist R)
  tail_or_silence now st = if ltb now st.tail_until then some (stop R) else none

  -- What the four indices read; `none` where one is out of range.
  pub record Reading : Type 0 where
    pub rt : Float
    pub lt : Float
    pub steer : Float
    pub rb : Bool

  abbrev pub collect : Option Float → Option Float → Option Float → Option ℕ → Option Reading
  collect (some rt) (some lt) (some steer) (some b) =
      some (record { rt = rt; lt = lt; steer = steer; rb = ltb 0 b })
  collect _ _ _ _ = none

  unfoldable pub reading : PadMap → Joy → Option Reading
  reading pad j =
      collect (get_elem? j.axes pad.rt_axis) (get_elem? j.axes pad.lt_axis)
        (get_elem? j.axes pad.steer_axis) (get_elem? j.buttons pad.rb_button)

  -- `trigger` arms each trigger that is seen at rest.
  unfoldable pub arm : Reading → State → State
  arm r st = record st {
    armed_rt = st.armed_rt || at_rest R r.rt;
    armed_lt = st.armed_lt || at_rest R r.lt;
  }

  -- The reminder of a trigger that is still missing.
  unfoldable pub nag : ℕ → State → State
  nag now st =
      if not (st.armed_rt && st.armed_lt) && ltb (st.nag_t + 3000) now
      then record st { nag_t = now }
      else st

  -- RB held on an armed pad engages; anything else ends an engagement, and begins the tail.
  unfoldable pub engage : Args → ℕ → Bool → State → State
  engage args now rb st =
      if rb && (st.armed_rt && st.armed_lt) then record st { engaged = true } else record st {
        engaged = false;
        tail_until = if st.engaged then now + args.tail_ms else st.tail_until;
      }

  unfoldable pub publish : Args → ℕ → Reading → State → Option (Twist R)
  publish args now r st =
      if st.engaged
      then some
          (command R args.caps (trigger R st.armed_rt r.rt) (trigger R st.armed_lt r.lt) r.steer)
      else tail_or_silence now st

  unfoldable pub drive : Args → ℕ → Reading → State → State × Option (Twist R)
  drive args now r st =
      let st' = engage args now r.rb (nag now (arm r st)) in (st', publish args now r st')

  abbrev pub on_reading : Args → ℕ → Option Reading → State → State × Option (Twist R)
  on_reading args now none st = (record st { warned_idx = true }, tail_or_silence now st)
  on_reading args now (some r) st = drive args now r st

  abbrev pub read_pad : Option PadMap → Joy → Option Reading
  read_pad none j = none
  read_pad (some pad) j = reading pad j

  unfoldable pub on_fresh : Args → ℕ → Joy → State → State × Option (Twist R)
  on_fresh args now j st = on_reading args now (read_pad st.pad j) st

  -- No message, or none for `--joy-timeout`.
  unfoldable pub on_lost : Args → ℕ → Bool → State → State × Option (Twist R)
  on_lost args now disarms st =
      let st' = if disarms then disarm args now st else st in (st', tail_or_silence now st')

  abbrev pub tick_on : Args → ℕ → Option Joy → State → State × Option (Twist R)
  tick_on args now none st = on_lost args now st.engaged st
  tick_on args now (some j) st =
      if ltb (st.joy_t + args.joy_timeout_ms) now
      then on_lost args now (st.seen_joy || st.engaged) st
      else on_fresh args now j st

  unfoldable pub tick : Args → ℕ → State → State × Option (Twist R)
  tick args now st = tick_on args now st.joy st

  abbrev zeros : ℕ → List (Twist R)
  zeros zero = []
  zeros (suc n) = stop R ∷ zeros n

  -- What `main` publishes at its end, when nothing raises: a burst of stops.
  unfoldable pub farewell : List (Twist R)
  farewell = zeros 5
