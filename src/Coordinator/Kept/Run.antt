-- ===== src/Coordinator/Kept/Run.antt =====
-- Frames from the bus, and the whole life of the node, keep what the changes of state keep.
use ros2_ws_gp.Common.{
  ℕ, ◌≡◌, refl, Bool, true, false, not, ◌||◌, Option, none, some, List, [], ◌∷◌, arith, All,
}
use ros2_ws_gp.Secoc.Bytes.{Bytes}
use ros2_ws_gp.Secoc.Store.{Files}
use ros2_ws_gp.Secoc.Codec.{secoc_verify, Check, raises, rejected, accepted}
use ros2_ws_gp.Coordinator.State.{
  jetson, ecu_eq, Flow, Config, Spool, Node, Env, done, raised, node_of, ◌>>=◌, bind_rule, if_rule,
}
use ros2_ws_gp.Coordinator.Lock.{update_lock_state}
use ros2_ws_gp.Coordinator.Approval.{with_files, activate}
use ros2_ws_gp.Coordinator.Handler.{
  flow_of, release, what_of, did_of, What, request, running, act, on_check, verify_and_act,
  on_magic, on_flow, handle_can, drain, on_can_event,
}
use ros2_ws_gp.Coordinator.Node.{
  on_self_start, on_self_done, Event, frame_received, can_event, poll_due, timeout_due, self_start,
  self_done, service_answered, notice_expires, verdict_written, step, spin, init, fresh, sweep,
  recover_self_update, with_flag, expire_notice, write_verdict,
}
use ros2_ws_gp.Coordinator.Kept.{Kept, IsFlow, is_poll}
use ros2_ws_gp.Coordinator.Kept.Verdicts.{kept_begin_approval, kept_poll_approvals}

flow_of-IsFlow : (can_id : ℕ) (f : Flow) → flow_of can_id ≡ some f → IsFlow f
unfolding flow_of
flow_of-IsFlow can_id f e = ground arith

module _ {aes_cmac : Bytes → Bytes → Option Bytes} {Good : Bool → Env → Type 0} {P : Node → Type 0}
    (k : Kept aes_cmac Good P) where
  kept_recover : (env : Env) (n : Node) → P n → P (node_of (recover_self_update env n))
  unfolding recover_self_update
  kept_recover env n h =
      let free_kept = k.by_release jetson (with_flag false n) (k.by_flag false n h) in
      if_rule P n.self_update_flag _ _
        (if_rule P env.state_writable
          (done (update_lock_state env (release jetson (with_flag false n)))) (raised n)
          (k.by_lock env (release jetson (with_flag false n)) free_kept) h)
        h

  module _ (env : Env) (good : Good false env) where
    kept_act :
        (flow : Flow) (what : What) (slot : ℕ) (n : Node)
        → IsFlow flow
        → P n
        → P (node_of (act aes_cmac env flow what slot n))
    unfolding act
    kept_act flow request slot n f h = kept_begin_approval k env good flow slot n f h
    kept_act flow running slot n f h =
        k.by_notice env flow.name (release flow.name n) (k.by_release flow.name n h)

    kept_on_check :
        (flow : Flow) (what : What) (check : Check) (n : Node)
        → IsFlow flow
        → P n
        → P (node_of (on_check aes_cmac env flow what check n))
    unfolding on_check
    kept_on_check flow what raises n f h = h
    kept_on_check flow what (rejected x) n f h = h
    kept_on_check flow what (accepted (magic ∷ slot ∷ []) fv) n f h =
        bind_rule P (act aes_cmac env flow what slot n) _ (kept_act flow what slot n f h)
          (k.by_lock env)
    kept_on_check flow what (accepted _ fv) n f h = h

    kept_on_magic :
        (flow : Flow) (what : Option What) (frame : Bytes) (n : Node)
        → IsFlow flow
        → P n
        → P (node_of (on_magic aes_cmac env flow what frame n))
    unfolding on_magic verify_and_act
    kept_on_magic flow none frame n f h = h
    kept_on_magic flow (some what) frame n f h =
        let (check, files) =
          secoc_verify aes_cmac env.rx_disk n.config.key (did_of flow what) frame n.files in
        kept_on_check flow what check (with_files files n) f
          (k.by_verify env (did_of flow what) frame n h)

    kept_on_flow :
        (flow : Option Flow) (frame : Bytes) (n : Node)
        → ((f : Flow) → flow ≡ some f → IsFlow f)
        → P n
        → P (node_of (on_flow aes_cmac env flow frame n))
    unfolding on_flow
    kept_on_flow none frame n f h = h
    kept_on_flow (some flow) [] n f h = h
    kept_on_flow (some flow) (magic ∷ rest) n f h =
        kept_on_magic flow (what_of magic) (magic ∷ rest) n (f flow refl) h

    kept_handle_can :
        (msg : ℕ × ℕ × Bytes) (n : Node) → P n → P (node_of (handle_can aes_cmac env msg n))
    unfolding handle_can
    kept_handle_can (can_id, dlc, frame) n h =
        ground (arith, kept_on_flow (flow_of can_id) frame n (flow_of-IsFlow can_id) h)

    kept_drain :
        (queue : List (ℕ × ℕ × Bytes)) (n : Node) → P n → P (node_of (drain aes_cmac env queue n))
    unfolding drain
    kept_drain [] n h = h
    kept_drain (msg ∷ queue) n h =
        bind_rule P (handle_can aes_cmac env msg (record n { can_queue = queue })) _
          (kept_handle_can msg (record n { can_queue = queue }) (k.by_queue queue n h))
          (kept_drain queue)

    kept_on_can_event : (n : Node) → P n → P (node_of (on_can_event aes_cmac env n))
    unfolding on_can_event
    kept_on_can_event n h =
        bind_rule P (drain aes_cmac env n.can_queue n) _ (kept_drain n.can_queue n h)
          (k.by_lock env)

    kept_on_self_start : (n : Node) → P n → P (node_of (on_self_start env n))
    unfolding on_self_start
    kept_on_self_start n h =
        let held = update_lock_state env (activate env jetson n) in
        let held_kept = k.by_lock env (activate env jetson n) (k.by_self env n h) in
        if_rule P env.state_writable (done (with_flag true held)) (raised held)
          (k.by_flag true held held_kept) held_kept

    kept_on_self_done : (n : Node) → P n → P (node_of (on_self_done env n))
    unfolding on_self_done
    kept_on_self_done n h =
        let free = release jetson n in
        let free_kept = k.by_release jetson n h in
        if_rule P (env.state_writable || not n.self_update_flag)
          (done (update_lock_state env (with_flag false free))) (raised free)
          (k.by_lock env (with_flag false free) (k.by_flag false free free_kept)) free_kept

  pub kept_step :
      (env : Env) (event : Event)
      → Good (is_poll event) env
      → (n : Node) → P n
      → P (node_of (step aes_cmac env event n))
  unfolding step expire_notice write_verdict
  kept_step env (frame_received can_id dlc frame) good n h = k.by_queue _ n h
  kept_step env can_event good n h = kept_on_can_event env good n h
  kept_step env poll_due good n h =
      if_rule P n.poll_timer _ (done n) (kept_poll_approvals k env good n h) h
  kept_step env timeout_due good n h = if_rule P n.timeout_timer _ (done n) (k.by_timeout env n h) h
  kept_step env self_start good n h = kept_on_self_start env good n h
  kept_step env self_done good n h = kept_on_self_done env good n h
  kept_step env (service_answered r) good n h = k.by_answer r n h
  kept_step env (notice_expires file) good n h = k.by_spool n.offer_seq _ n h
  kept_step env (verdict_written oid file) good n h = k.by_spool n.offer_seq _ n h

  pub kept_spin :
      (events : List (Env × Event)) (n : Node)
      → All (λ met. Good (is_poll met.1) met.0) events
      → P n
      → P (node_of (spin aes_cmac events n))
  unfolding spin
  kept_spin [] n good h = h
  kept_spin ((env, event) ∷ events) n good h =
      bind_rule P (step aes_cmac env event n) _ (kept_step env event good.0 n h)
        (λ n' h'. kept_spin events n' good.1 h')

  pub kept_init :
      (env : Env) (config : Config) (files : Files) (spool : Spool) (flag : Bool)
      → P (fresh config files spool flag)
      → P (node_of (init env config files spool flag))
  unfolding init sweep
  kept_init env config files spool flag h =
      bind_rule P (recover_self_update env (fresh config files spool flag)) _
        (kept_recover env (fresh config files spool flag) h) (λ n hn. k.by_spool n.offer_seq _ n hn)

  -- What the fields hold at first, and every change of state keeps, holds at the end of every run.
  pub kept_run :
      (env : Env) (config : Config) (files : Files) (spool : Spool) (flag : Bool)
      (events : List (Env × Event))
      → All (λ met. Good (is_poll met.1) met.0) events
      → P (fresh config files spool flag)
      → P (node_of (init env config files spool flag >>= spin aes_cmac events))
  kept_run env config files spool flag events good h =
      bind_rule P (init env config files spool flag) (spin aes_cmac events)
        (kept_init env config files spool flag h) (λ n hn. kept_spin events n good hn)

any_env : (events : List (Env × Event)) → All {0, 0} {A = Env × Event} (λ met. Unit) events
any_env [] = tt
any_env (met ∷ events) = (tt, any_env events)

-- What is kept in every environment holds at the end of every run.
pub kept_always :
    {aes_cmac : Bytes → Bytes → Option Bytes} {P : Node → Type 0}
    → Kept aes_cmac (λ polls env. Unit) P
    → (env : Env) (config : Config) (files : Files) (spool : Spool) (flag : Bool)
      (events : List (Env × Event))
    → P (fresh config files spool flag)
    → P (node_of (init env config files spool flag >>= spin aes_cmac events))
kept_always k env config files spool flag events h =
    kept_run k env config files spool flag events (any_env events) h
