-- ===== src/Coordinator/Invariant/Verdicts.antt =====
-- Verdict frames keep the invariant.
use ros2_ws_gp.Common.{ℕ, Bool, true, Option, [], ◌∷◌}
use ros2_ws_gp.Secoc.Bytes.{Bytes}
use ros2_ws_gp.Secoc.Codec.{secoc_build}
use ros2_ws_gp.Coordinator.State.{Ecu, ecu_eq, Flow, Pending, Node, Env, node_of, bind_rule}
use ros2_ws_gp.Coordinator.Approval.{
  take_down, with_files, verdict_byte, send_verdict, fail_open, settle,
}
use ros2_ws_gp.Coordinator.Invariant.Parts.{
  IsSound, put_frame-IsSound, take_down-IsSound, activate-IsSound, after_verdict-IsSound,
}

module _ (aes_cmac : Bytes → Bytes → Option Bytes) (env : Env) where
  pub send_verdict-IsSound :
      (name : Ecu) (did can_id slot : ℕ) (approved : Bool) (n : Node)
      → IsSound n
      → IsSound (node_of (send_verdict aes_cmac env name did can_id slot approved n))
  unfolding send_verdict
  send_verdict-IsSound name did can_id slot approved n h =
      let (built, files) =
        secoc_build aes_cmac (env.tx_disk name) n.config.key did (verdict_byte approved ∷ slot ∷ [])
          n.files in
      put_frame-IsSound env name can_id built (with_files files n)
        (record { polled = h.polled; one_call = h.one_call; timed = h.timed })

  pub fail_open-IsSound :
      (flow : Flow) (slot : ℕ) (n : Node)
      → IsSound n
      → IsSound (node_of (fail_open aes_cmac env flow slot n))
  unfolding fail_open
  fail_open-IsSound flow slot n h =
      bind_rule IsSound
        (send_verdict aes_cmac env flow.name flow.did_appr flow.appr_can_id slot true n) _
        (send_verdict-IsSound flow.name flow.did_appr flow.appr_can_id slot true n h)
        (activate-IsSound env flow.name)

  pub settle-IsSound :
      (name : Ecu) (p : Pending) (approved : Bool) (n : Node)
      → IsSound n
      → IsSound (node_of (settle aes_cmac env name p approved n))
  unfolding settle
  settle-IsSound name p approved n h =
      bind_rule IsSound
        (send_verdict aes_cmac env name p.did_appr p.appr_can_id p.slot approved
          (take_down env name p n))
        _
        (send_verdict-IsSound name p.did_appr p.appr_can_id p.slot approved _
          (take_down-IsSound env name p n h))
        (after_verdict-IsSound env name approved)
