-- ===== src/Coordinator/Handler.antt =====
-- What a frame from the bus does: `_handle_can` and `_on_can_event`.
use ros2_ws_gp.Common.{ℕ, Option, none, some, List, [], ◌∷◌, ltb, ◌==◌, if◌then◌else◌}
use ros2_ws_gp.Common.Dict.{erase}
use ros2_ws_gp.Common.Text.{text_eq}
use ros2_ws_gp.Secoc.Bytes.{Bytes}
use ros2_ws_gp.Secoc.Codec.{frame_len, Check, raises, rejected, accepted, secoc_verify}
use ros2_ws_gp.Coordinator.State.{
  Ecu, cluster, esp32, ecu_eq, Flow, Node, Env, Outcome, done, raised, ◌>>=◌,
}
use ros2_ws_gp.Coordinator.Spool.{write_notice}
use ros2_ws_gp.Coordinator.Lock.{update_lock_state}
use ros2_ws_gp.Coordinator.Approval.{begin_approval, with_files}

abbrev pub can_id_ota_req : ℕ
can_id_ota_req = 0x300

abbrev pub can_id_ecu_ota_req : ℕ
can_id_ecu_ota_req = 0x310

abbrev pub ota_req_magic : ℕ
ota_req_magic = 0xA5

abbrev pub ota_run_magic : ℕ
ota_run_magic = 0x5A

abbrev pub cluster_flow : Flow
cluster_flow = record {
  name = cluster;
  did_req = 1;
  did_run = 2;
  did_appr = 3;
  appr_can_id = 0x301;
  budget = record { peer_wait_ms = 60000; ui_ms = 9000; deadline_ms = 30000 };
}

abbrev pub esp32_flow : Flow
esp32_flow = record {
  name = esp32;
  did_req = 4;
  did_run = 5;
  did_appr = 6;
  appr_can_id = 0x311;
  budget = record { peer_wait_ms = 10000; ui_ms = 9000; deadline_ms = 9500 };
}

-- `flows.get(can_id)`
unfoldable pub flow_of : ℕ → Option Flow
flow_of can_id =
    if can_id == can_id_ota_req
    then some cluster_flow
    else if can_id == can_id_ecu_ota_req
    then some esp32_flow
    else none

-- REQUEST or RUNNING
pub data What : Type 0 where
  request running : What

unfoldable pub what_of : ℕ → Option What
what_of magic =
    if magic == ota_req_magic
    then some request
    else if magic == ota_run_magic
    then some running
    else none

abbrev pub did_of : Flow → What → ℕ
did_of flow request = flow.did_req
did_of flow running = flow.did_run

unfoldable pub release : Ecu → Node → Node
release name n = record n { active_ecus = erase name n.active_ecus }

module _ (aes_cmac : Bytes → Bytes → Option Bytes) where
  -- A frame that `secoc_verify` passed, by its payload.
  unfoldable pub act : Env → Flow → What → ℕ → Node → Outcome
  act env flow request slot n = begin_approval aes_cmac env flow slot n
  act env flow running slot n = done (write_notice env flow.name (release flow.name n))

  unfoldable pub on_check : Env → Flow → What → Check → Node → Outcome
  on_check env flow what raises n = raised n
  on_check env flow what (rejected _) n = done n
  on_check env flow what (accepted (magic ∷ slot ∷ []) fv) n =
      act env flow what slot n >>= λ n'. done (update_lock_state env n')
  on_check env flow what (accepted _ fv) n = raised n

  unfoldable pub verify_and_act : Env → Flow → What → Bytes → Node → Outcome
  verify_and_act env flow what frame n =
      let (check, files) =
        secoc_verify aes_cmac env.rx_disk n.config.key (did_of flow what) frame n.files in
      on_check env flow what check (with_files files n)

  unfoldable pub on_magic : Env → Flow → Option What → Bytes → Node → Outcome
  on_magic env flow none frame n = done n
  on_magic env flow (some what) frame n = verify_and_act env flow what frame n

  unfoldable pub on_flow : Env → Option Flow → Bytes → Node → Outcome
  on_flow env none frame n = done n
  on_flow env (some flow) [] n = raised n
  on_flow env (some flow) (magic ∷ rest) n = on_magic env flow (what_of magic) (magic ∷ rest) n

  -- `_handle_can`
  unfoldable pub handle_can : Env → ℕ × ℕ × Bytes → Node → Outcome
  handle_can env (can_id, dlc, frame) n =
      if ltb dlc frame_len then done n else on_flow env (flow_of can_id) frame n

  -- The loop of `_on_can_event`: each frame leaves the queue before it is handled.
  unfoldable pub drain : Env → List (ℕ × ℕ × Bytes) → Node → Outcome
  drain env [] n = done n
  drain env (msg ∷ queue) n =
      handle_can env msg (record n { can_queue = queue }) >>= λ n'. drain env queue n'

  unfoldable pub on_can_event : Env → Node → Outcome
  on_can_event env n = drain env n.can_queue n >>= λ n'. done (update_lock_state env n')
