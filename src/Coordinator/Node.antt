-- ===== src/Coordinator/Node.antt =====
-- The services of the node, the dispatch of its callbacks, and its life from `__init__` to
-- `destroy_node`.
use ros2_ws_gp.Common.{ℕ, Bool, true, false, not, ◌||◌, Option, List, [], ◌∷◌, ◌++◌, if◌then◌else◌}
use ros2_ws_gp.Common.Dict.{Dict, insert}
use ros2_ws_gp.Common.Text.{Text, text_eq, text_beq, codes, lower}
use ros2_ws_gp.Secoc.Bytes.{Bytes}
use ros2_ws_gp.Secoc.Store.{Files, FileText}
use ros2_ws_gp.Coordinator.State.{
  Ecu, jetson, ecu_eq, Config, Spool, Label, Pending, Node, Env, in_notices, Outcome, done, raised,
  ◌>>=◌,
}
use ros2_ws_gp.Coordinator.Spool.{sweep_offers, sweep_notices, withdraw_offer, unlink}
use ros2_ws_gp.Coordinator.Lock.{Response, on_service_done, update_lock_state, timeout_check}
use ros2_ws_gp.Coordinator.Approval.{poll_approvals, activate}
use ros2_ws_gp.Coordinator.Handler.{release, on_can_event}

abbrev pub with_flag : Bool → Node → Node
with_flag flag n = record n { self_update_flag = flag }

unfoldable pub on_self_start : Env → Node → Outcome
on_self_start env n =
    let held = update_lock_state env (activate env jetson n) in
    if env.state_writable then done (with_flag true held) else raised held

unfoldable pub on_self_done : Env → Node → Outcome
on_self_done env n =
    let free = release jetson n in
    if env.state_writable || not n.self_update_flag
    then done (update_lock_state env (with_flag false free))
    else raised free

unfoldable pub recover_self_update : Env → Node → Outcome
recover_self_update env n =
    if n.self_update_flag
    then if env.state_writable
      then done (update_lock_state env (release jetson (with_flag false n)))
      else raised n
    else done n

-- `on_no_verdict`: anything but "deny", in any case of its letters, approves.
unfoldable pub approves_on_no_verdict : Text → Bool
approves_on_no_verdict word = if text_beq (lower word) (codes "deny") then false else true

-- The fields before anything has happened, on the files of the run before.
unfoldable pub fresh : Config → Files → Spool → Bool → Node
fresh config files spool flag = record {
  config = config;
  files = files;
  spool = spool;
  active_ecus = [];
  is_locked = false;
  lock_state_pending = false;
  timeout_timer = false;
  poll_timer = false;
  pending = [];
  offer_seq = 0;
  can_queue = [];
  self_update_flag = flag;
  notice_timers = [];
  futures = [];
  sent = [];
}

unfoldable pub sweep : Env → Node → Node
sweep env n =
    let swept = if env.offers_dir then sweep_offers env n.spool.offers n.spool else n.spool in
    record n {
      spool =
          if env.notices_dir
          then record swept { notices = sweep_notices env swept.notices }
          else swept;
    }

unfoldable pub init : Env → Config → Files → Spool → Bool → Outcome
init env config files spool flag =
    recover_self_update env (fresh config files spool flag) >>= λ n. done (sweep env n)

unfoldable pub withdraw_all : Env → Dict Ecu Pending → Spool → Spool
withdraw_all env [] spool = spool
withdraw_all env ((_, p) ∷ rest) spool = withdraw_all env rest (withdraw_offer env p.id spool)

unfoldable pub destroy_node : Env → Node → Node
destroy_node env n = record n { spool = withdraw_all env n.pending n.spool; pending = [] }

-- What the executor, the receiving thread and the head unit do.
pub data Event : Type 0 where
  frame_received : ℕ → ℕ → Bytes → Event
  can_event poll_due timeout_due self_start self_done : Event
  service_answered : Response → Event
  notice_expires : Text → Event
  verdict_written : Text → FileText → Event

unfoldable pub expire_notice : Env → Text → Node → Node
expire_notice env file n = record n {
  spool = record (n.spool) { notices = unlink (env.unlinks in_notices file) file n.spool.notices };
}

unfoldable pub write_verdict : Text → FileText → Node → Node
write_verdict oid file n = record n {
  spool = record (n.spool) { verdicts = insert oid file n.spool.verdicts };
}

-- The future that is open is answered.
unfoldable pub answer_call : Response → List Label → Node → Node
answer_call response [] n = n
answer_call response (label ∷ rest) n = on_service_done label response rest n

module _ (aes_cmac : Bytes → Bytes → Option Bytes) where
  -- A timer that does not exist does not fire.
  unfoldable pub step : Env → Event → Node → Outcome
  step env (frame_received can_id dlc frame) n =
      done (record n { can_queue = n.can_queue ++ (can_id, dlc, frame) ∷ [] })
  step env can_event n = on_can_event aes_cmac env n
  step env poll_due n = if n.poll_timer then poll_approvals aes_cmac env n else done n
  step env timeout_due n = if n.timeout_timer then done (timeout_check env n) else done n
  step env self_start n = on_self_start env n
  step env self_done n = on_self_done env n
  step env (service_answered response) n = done (answer_call response n.futures n)
  step env (notice_expires file) n = done (expire_notice env file n)
  step env (verdict_written oid file) n = done (write_verdict oid file n)

  -- The executor runs callbacks until one raises.
  unfoldable pub spin : List (Env × Event) → Node → Outcome
  spin [] n = done n
  spin ((env, event) ∷ events) n = step env event n >>= λ n'. spin events n'
