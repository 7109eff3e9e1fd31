-- ===== src/Coordinator/Kept.antt =====
-- What a property of the node has to survive to hold through every run: the changes of state that the
-- callbacks are made of, where each callback meets an environment that is `Good` for it, a round of polling or not. `Verdicts` and `Run` carry it through the callbacks.
pub mod Verdicts
pub mod Run
use ros2_ws_gp.Common.{ℕ, ◌≡◌, ◌⊎◌, Bool, true, false, Option, some, List}
use ros2_ws_gp.Common.Dict.{lookup, contains}
use ros2_ws_gp.Common.Text.{Text}
use ros2_ws_gp.Secoc.Bytes.{Bytes}
use ros2_ws_gp.Secoc.Codec.{secoc_verify}
use ros2_ws_gp.Secoc.Store.{Files, FileText}
use ros2_ws_gp.Coordinator.State.{Ecu, jetson, ecu_eq, Flow, Pending, Spool, Node, Env, node_of}
use ros2_ws_gp.Coordinator.Spool.{write_notice}
use ros2_ws_gp.Coordinator.Lock.{Response, update_lock_state, timeout_check}
use ros2_ws_gp.Coordinator.Approval.{
  activate, with_files, ask, drop_pending, stop_if_idle, fail_open, settle,
}
use ros2_ws_gp.Coordinator.Handler.{cluster_flow, esp32_flow, release}
use ros2_ws_gp.Coordinator.Node.{Event, poll_due, answer_call, with_flag}

-- A round of `_poll_approvals`.
abbrev pub is_poll : Event → Bool
is_poll poll_due = true
is_poll _ = false

-- The two rows of `flows`.
abbrev pub IsFlow : Flow → Type 0
IsFlow flow = (flow ≡ cluster_flow) ⊎ (flow ≡ esp32_flow)

module _ (aes_cmac : Bytes → Bytes → Option Bytes) where
  pub record Kept (Good : Bool → Env → Type 0) (P : Node → Type 0) : Type 0 where
    pub by_lock : (env : Env) (n : Node) → P n → P (update_lock_state env n)
    pub by_notice : (env : Env) (name : Ecu) (n : Node) → P n → P (write_notice env name n)
    pub by_timeout : (env : Env) (n : Node) → P n → P (timeout_check env n)
    pub by_answer : (r : Response) (n : Node) → P n → P (answer_call r n.futures n)
    pub by_verify :
        (env : Env) (did : ℕ) (frame : Bytes) (n : Node)
        → P n
        → P (with_files (secoc_verify aes_cmac env.rx_disk n.config.key did frame n.files).1 n)
    pub by_queue :
        (queue : List (ℕ × ℕ × Bytes)) (n : Node) → P n → P (record n { can_queue = queue })
    pub by_spool :
        (seq : ℕ) (spool : Spool) (n : Node) → P n → P (record n { offer_seq = seq; spool = spool })
    pub by_flag : (flag : Bool) (n : Node) → P n → P (with_flag flag n)
    pub by_release : (name : Ecu) (n : Node) → P n → P (release name n)
    pub by_self : (env : Env) (n : Node) → P n → P (activate env jetson n)
    pub by_idle : (n : Node) → P n → P (stop_if_idle n)
    pub by_drop : (env : Env) (name : Ecu) (n : Node) → P n → P (drop_pending env name n)
    pub by_ask :
        (env : Env) (flow : Flow) (slot : ℕ) (oid : Text) (n : Node)
        → Good false env
        → IsFlow flow
        → contains flow.name n.pending ≡ false
        → P n
        → P (ask env flow slot oid n)
    pub by_fail_open :
        (env : Env) (flow : Flow) (slot : ℕ) (n : Node)
        → Good false env
        → IsFlow flow
        → P n
        → P (node_of (fail_open aes_cmac env flow slot n))
    pub by_settle :
        (env : Env) (name : Ecu) (p : Pending) (approved : Bool) (n : Node)
        → Good true env
        → lookup name n.pending ≡ some p
        → P n
        → P (node_of (settle aes_cmac env name p approved n))
