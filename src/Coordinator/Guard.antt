-- ===== src/Coordinator/Guard.antt =====
-- Which frames can do anything.
use ros2_ws_gp.Common.{ℕ, ◌≡◌, refl, ◌≢◌, Option, none, some, [], ◌∷◌, ltb}
use ros2_ws_gp.Common.Text.{text_eq}
use ros2_ws_gp.Secoc.Bytes.{Bytes}
use ros2_ws_gp.Secoc.Store.{Files}
use ros2_ws_gp.Secoc.Codec.{secoc_verify, Check, raises, rejected, accepted}
use ros2_ws_gp.Coordinator.State.{ecu_eq, Flow, Node, Env, done, node_of, if_rule}
use ros2_ws_gp.Coordinator.Approval.{with_files}
use ros2_ws_gp.Coordinator.Handler.{
  flow_of, What, on_check, verify_and_act, on_magic, on_flow, handle_can, what_of, did_of,
}

-- No field but the counter files differs.
abbrev pub OnlyFiles : Node → Node → Type 0
OnlyFiles n n' = n' ≡ with_files n'.files n

module _ (aes_cmac : Bytes → Bytes → Option Bytes) (env : Env) where
  on_check-OnlyFiles :
      (flow : Flow) (what : What) (check : Check) (files : Files) (n : Node)
      → ((p : Bytes) (c : ℕ) → check ≢ accepted p c)
      → OnlyFiles n (node_of (on_check aes_cmac env flow what check (with_files files n)))
  unfolding on_check
  on_check-OnlyFiles flow what raises files n h = refl
  on_check-OnlyFiles flow what (rejected x) files n h = refl
  on_check-OnlyFiles flow what (accepted p c) files n h = absurd (h p c refl)

  on_magic-OnlyFiles :
      (flow : Flow) (what : Option What) (frame : Bytes) (n : Node)
      → ((w : What) (p : Bytes) (c : ℕ)
          → (secoc_verify aes_cmac env.rx_disk n.config.key (did_of flow w) frame n.files).0
            ≢ accepted p c)
      → OnlyFiles n (node_of (on_magic aes_cmac env flow what frame n))
  unfolding on_magic verify_and_act
  on_magic-OnlyFiles flow none frame n h = refl
  on_magic-OnlyFiles flow (some what) frame n h = on_check-OnlyFiles flow what _ _ n (h what)

  on_flow-OnlyFiles :
      (flow : Option Flow) (frame : Bytes) (n : Node)
      → ((f : Flow) (w : What) (p : Bytes) (c : ℕ)
          → flow ≡ some f
          → (secoc_verify aes_cmac env.rx_disk n.config.key (did_of f w) frame n.files).0
            ≢ accepted p c)
      → OnlyFiles n (node_of (on_flow aes_cmac env flow frame n))
  unfolding on_flow
  on_flow-OnlyFiles none frame n h = refl
  on_flow-OnlyFiles (some flow) [] n h = refl
  on_flow-OnlyFiles (some flow) (magic ∷ rest) n h =
      on_magic-OnlyFiles flow (what_of magic) (magic ∷ rest) n (λ w p c. h flow w p c refl)

  -- A frame that SecOC accepts under neither identifier of its flow, or on an identifier that is no
  -- request, changes nothing but possibly the counter files, whether the callback returns or raises.
  pub handle_can-OnlyFiles :
      (can_id dlc : ℕ) (frame : Bytes) (n : Node)
      → ((f : Flow) (w : What) (p : Bytes) (c : ℕ)
          → flow_of can_id ≡ some f
          → (secoc_verify aes_cmac env.rx_disk n.config.key (did_of f w) frame n.files).0
            ≢ accepted p c)
      → OnlyFiles n (node_of (handle_can aes_cmac env (can_id, dlc, frame) n))
  unfolding handle_can
  handle_can-OnlyFiles can_id dlc frame n h =
      if_rule (OnlyFiles n) (ltb dlc 8) (done n) (on_flow aes_cmac env (flow_of can_id) frame n)
        refl (on_flow-OnlyFiles (flow_of can_id) frame n h)
