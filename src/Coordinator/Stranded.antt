-- ===== src/Coordinator/Stranded.antt =====
-- A known gap: nothing looks at the lock again once a call of the emergency stop has been answered.
use ros2_ws_gp.Common.{ℕ, true, false, Option, [], ◌∷◌}
use ros2_ws_gp.Common.Text.{text_eq}
use ros2_ws_gp.Secoc.Bytes.{Bytes}
use ros2_ws_gp.Coordinator.State.{Ecu, lock, Node}
use ros2_ws_gp.Coordinator.Node.{
  Event, frame_received, can_event, poll_due, timeout_due, self_start, self_done, service_answered,
  notice_expires, verdict_written,
}

-- The node while its first lock call is open: one update is active, and no prompt is pending.
abbrev pub locking : Ecu → ℕ → Node → Node
locking name t n = record n {
  active_ecus = (name, t) ∷ [];
  is_locked = false;
  lock_state_pending = true;
  pending = [];
  futures = lock ∷ [];
}

-- The node locked, with no update active, no call open and no prompt pending.
abbrev pub stranded : Node → Node
stranded n = record n {
  active_ecus = [];
  is_locked = true;
  lock_state_pending = false;
  pending = [];
  futures = [];
}

-- Everything but the handling of a frame and the services of the node.
abbrev pub IsBackground : Event → Type 0
IsBackground (frame_received _ _ _) = Unit
IsBackground can_event = ⊥
IsBackground self_start = ⊥
IsBackground self_done = ⊥
IsBackground poll_due = Unit
IsBackground timeout_due = Unit
IsBackground (service_answered _) = Unit
IsBackground (notice_expires _) = Unit
IsBackground (verdict_written _ _) = Unit

module _ (aes_cmac : Bytes → Bytes → Option Bytes) where
  -- The update that was being locked for is over, but the lock call is still open.
  abbrev leaving : Node → Node
  leaving n = record n {
    active_ecus = [];
    is_locked = false;
    lock_state_pending = true;
    pending = [];
    futures = lock ∷ [];
  }
