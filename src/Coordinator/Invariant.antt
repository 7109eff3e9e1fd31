-- ===== src/Coordinator/Invariant.antt =====
-- What holds of the coordinator after every callback, those that raise included.
pub mod Parts
pub mod Verdicts
use ros2_ws_gp.Common.{ℕ, ◌+◌, ◌≤◌, ◌≡◌, refl, inl, inr, Bool, Option, List, [], arith}
use ros2_ws_gp.Secoc.Bytes.{Bytes}
use ros2_ws_gp.Secoc.Store.{Files}
use ros2_ws_gp.Coordinator.State.{Flow, Config, Spool, jetson, Node, Env, node_of, ◌>>=◌}
use ros2_ws_gp.Coordinator.Handler.{cluster_flow, esp32_flow}
use ros2_ws_gp.Coordinator.Node.{Event, spin, init, fresh}
use ros2_ws_gp.Coordinator.Kept.{IsFlow, Kept}
use ros2_ws_gp.Coordinator.Kept.Run.{kept_always}
use ros2_ws_gp.Coordinator.Invariant.Parts.{
  IsSound, IsBudgeted, update_lock_state-IsSound, write_notice-IsSound, timeout_check-IsSound,
  ask-IsSound, drop_pending-IsSound, activate-IsSound, stop_if_idle-IsSound, release-IsSound,
  answer_call-IsSound,
}
use ros2_ws_gp.Coordinator.Invariant.Verdicts.{fail_open-IsSound, settle-IsSound}

flow-IsBudgeted : (flow : Flow) → IsFlow flow → IsBudgeted flow
flow-IsBudgeted flow (inl e) = rw e (omega arith)
flow-IsBudgeted flow (inr e) = rw e (omega arith)

fresh-IsSound :
    (config : Config) (files : Files) (spool : Spool) (flag : Bool)
    → IsSound (fresh config files spool flag)
unfolding fresh
fresh-IsSound config files spool flag = record { polled = inr refl; one_call = refl; timed = tt }

module _ (aes_cmac : Bytes → Bytes → Option Bytes) where
  IsSound-Kept : Kept aes_cmac (λ polls env. Unit) IsSound
  IsSound-Kept = record {
    by_lock = update_lock_state-IsSound;
    by_notice = write_notice-IsSound;
    by_timeout = timeout_check-IsSound;
    by_answer = λ r n h. answer_call-IsSound r n.futures n refl h;
    by_verify =
        λ env did frame n h. record { polled = h.polled; one_call = h.one_call; timed = h.timed };
    by_queue = λ queue n h. record { polled = h.polled; one_call = h.one_call; timed = h.timed };
    by_spool =
        λ seq spool n h. record { polled = h.polled; one_call = h.one_call; timed = h.timed };
    by_flag = λ flag n h. record { polled = h.polled; one_call = h.one_call; timed = h.timed };
    by_release = release-IsSound;
    by_self = λ env n h. activate-IsSound env jetson n h;
    by_idle = stop_if_idle-IsSound;
    by_drop = drop_pending-IsSound;
    by_ask = λ env flow slot oid n good f none_left h.
        ask-IsSound env flow slot oid n (flow-IsBudgeted flow f) h;
    by_fail_open = λ env flow slot n good f h. fail_open-IsSound aes_cmac env flow slot n h;
    by_settle =
        λ env name p approved n good there h. settle-IsSound aes_cmac env name p approved n h;
  }

  -- From the start of the node, through any events in any environment, to the callback that raises if
  -- one does: while a prompt is pending the poll timer runs; one call of the emergency stop is open if the
  -- flag says so and none otherwise; and the deadline of each prompt lies half a second or more before
  -- the end of its requester's wait, counted from when the prompt went up.
  pub run-IsSound :
      (env : Env) (config : Config) (files : Files) (spool : Spool) (flag : Bool)
      (events : List (Env × Event))
      → IsSound (node_of (init env config files spool flag >>= spin aes_cmac events))
  run-IsSound env config files spool flag events =
      kept_always IsSound-Kept env config files spool flag events
        (fresh-IsSound config files spool flag)
