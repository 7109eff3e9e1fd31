-- ===== src/Override/PadMap.antt =====
-- Which axis and button is which: `PAD_MAPS` and `resolve_pad_map`.
use ros2_ws_gp.Common.{ℕ, ◌&&◌, Option, none, some, ◌==◌, if◌then◌else◌}

pub record PadMap : Type 0 where
  pub rt_axis : ℕ
  pub lt_axis : ℕ
  pub steer_axis : ℕ
  pub rb_button : ℕ

-- The command line's indices: `none` where nobody said.
pub record Indices : Type 0 where
  pub rt_axis : Option ℕ
  pub lt_axis : Option ℕ
  pub steer_axis : Option ℕ
  pub rb_button : Option ℕ

abbrev pub usb_map : PadMap
usb_map = record { rt_axis = 5; lt_axis = 2; steer_axis = 0; rb_button = 5 }

abbrev pub bluetooth_map : PadMap
bluetooth_map = record { rt_axis = 5; lt_axis = 4; steer_axis = 0; rb_button = 10 }

-- `PAD_MAPS.get((n_ax, n_btn))`
unfoldable pub profile : ℕ → ℕ → Option PadMap
profile n_ax n_btn =
    if n_ax == 8 && n_btn == 12
    then some usb_map
    else if n_ax == 6 && n_btn == 16
    then some bluetooth_map
    else none

-- Every index, if none is missing.
unfoldable pub specified : Indices → Option PadMap
specified i = go i.rt_axis i.lt_axis i.steer_axis i.rb_button
  where
    go : Option ℕ → Option ℕ → Option ℕ → Option ℕ → Option PadMap
    go (some rt) (some lt) (some steer) (some rb) =
        some (record { rt_axis = rt; lt_axis = lt; steer_axis = steer; rb_button = rb })
    go _ _ _ _ = none

abbrev pub or_default : Option ℕ → ℕ → ℕ
or_default none d = d
or_default (some n) d = n

-- The profile, where the operator did not choose.
abbrev pub fill : Indices → PadMap → PadMap
fill i p = record {
  rt_axis = or_default i.rt_axis p.rt_axis;
  lt_axis = or_default i.lt_axis p.lt_axis;
  steer_axis = or_default i.steer_axis p.steer_axis;
  rb_button = or_default i.rb_button p.rb_button;
}

abbrev pub fill_from : Indices → Option PadMap → Option PadMap
fill_from i none = none
fill_from i (some p) = some (fill i p)

abbrev pub choose : Indices → Option PadMap → Option PadMap → Option PadMap
choose i (some all) prof = some all
choose i none prof = fill_from i prof

-- `resolve_pad_map`: the map in force, or `none` where it exits with status 2.
unfoldable pub resolve_pad_map : ℕ → ℕ → Indices → Option PadMap
resolve_pad_map n_ax n_btn i = choose i (specified i) (profile n_ax n_btn)
