-- ===== src/Stamper.antt =====
-- twist_stamper.py: each command is published again with its frame and the time.
use ros2_ws_gp.Common.{ℕ}
use ros2_ws_gp.Common.Text.{Text, codes}

pub record Stamped (T : Type 0) : Type 0 where
  pub stamp : ℕ
  pub frame_id : Text
  pub twist : T

-- The default of the parameter `frame_id`.
abbrev pub base_footprint : Text
base_footprint = codes "base_footprint"

-- `listener_callback`, at a time of the node's clock.
unfoldable pub listener_callback : {T : Type 0} → Text → ℕ → T → Stamped T
listener_callback frame_id now msg = record { stamp = now; frame_id = frame_id; twist = msg }
