-- ===== src/Coordinator/Contract/Refines.antt =====
-- The coordinator keeps to the abstract machine of each ECU, and what follows from that.
use mathlib.Core.Path.{subst}
use ros2_ws_gp.Common.{
  ◌≡◌, refl, sym, ap, ◌∙◌, inl, inr, ℕ, Bool, true, false, ◌||◌, Option, some, List, [], ◌∷◌, map,
  Bool-cases, if◌then◌else◌,
}
use ros2_ws_gp.Common.Dict.{lookup, contains}
use ros2_ws_gp.Secoc.Bytes.{Bytes}
use ros2_ws_gp.Secoc.Store.{Files}
use ros2_ws_gp.Coordinator.State.{
  Ecu, ecu_eq, Flow, Pending, Config, Spool, Node, Env, Outcome, done, raised, node_of, ◌>>=◌,
}
use ros2_ws_gp.Coordinator.Approval.{take_down, fail_open, settle}
use ros2_ws_gp.Coordinator.Node.{Event, step, spin, init, fresh}
use ros2_ws_gp.Coordinator.Kept.{Kept, is_poll}
use ros2_ws_gp.Coordinator.Kept.Run.{kept_step, kept_init}
use ros2_ws_gp.Coordinator.Contract.{
  Phase, phase_with, verdicts_to, phase, Move, Moves, Course, stops, calls, answers, grants, rests,
  initial,
}
use ros2_ws_gp.Coordinator.Contract.Phases.{
  contains-erase, phase-lock, phase-notice, phase-answer, phase-idle, stays, moved, release-Moves,
  timeout-Moves, self-Moves, erased-Moves, drop-Moves, ask-Moves,
}
use ros2_ws_gp.Coordinator.Contract.Sending.{
  phase-activate, phase-after_verdict, send_verdict-IsSending,
}

module _ (aes_cmac : Bytes → Bytes → Option Bytes) (e : Ecu) where
  module _ {p : Phase} where
    fail_open-Moves :
        (env : Env) (flow : Flow) (slot : ℕ) (n : Node)
        → Moves e false p (phase e n)
        → Moves e false p (phase e (node_of (fail_open aes_cmac env flow slot n)))
    unfolding fail_open
    fail_open-Moves env flow slot n path =
        elim (send_verdict-IsSending aes_cmac e env flow.name flow.did_appr flow.appr_can_id slot
          true n) [
            | inl (m, eq, same) ↦ rw eq (stays same path)
            | inr (m, eq, ph) ↦
                (let ph' =
                    phase-activate e env flow.name m
                    ∙ ap
                        (λ q.
                          phase_with q.asked (if ecu_eq.beq flow.name e then true else q.held)
                            q.verdicts)
                        ph in
                  rw eq (elim (Bool-cases (ecu_eq.beq flow.name e)) [
                    | inl same ↦ moved (grants _ _ _) (sym (ph' ∙ rw same refl)) path
                    | inr other ↦ stays (ph' ∙ rw other refl) path
                  ]))
          ]

    settle-Moves :
        (env : Env) (name : Ecu) (q : Pending) (approved : Bool) (n : Node)
        → lookup name n.pending ≡ some q
        → Moves e true p (phase e n)
        → Moves e true p (phase e (node_of (settle aes_cmac env name q approved n)))
    unfolding settle take_down
    settle-Moves env name q approved n there path =
        elim (send_verdict-IsSending aes_cmac e env name q.did_appr q.appr_can_id q.slot approved
          (take_down env name q n)) [
            | inl (m, eq, same) ↦ rw eq (stays same (erased-Moves env name q n path))
            | inr (m, eq, ph) ↦
                (let ph' =
                    phase-after_verdict e env name approved m
                    ∙ ap
                        (λ r.
                          phase_with r.asked
                            (if ecu_eq.beq name e then approved || r.held else r.held) r.verdicts)
                        ph
                    ∙ ap
                        (λ b.
                          phase_with b
                            (if ecu_eq.beq name e
                              then approved || contains e n.active_ecus
                              else contains e n.active_ecus)
                            (if ecu_eq.beq name e
                              then approved ∷ verdicts_to e n.sent
                              else verdicts_to e n.sent))
                        (contains-erase e name n.pending) in
                  rw eq (elim (Bool-cases (ecu_eq.beq name e)) [
                    | inl same ↦
                        (let here = (ecu_eq.beq_iff name e).0 same in
                          let asked =
                            subst (λ x. contains x n.pending ≡ true) here
                              (rw (contains, there) refl) in
                          moved
                            (subst
                              (λ b.
                                Move e true
                                  (phase_with b (contains e n.active_ecus) (verdicts_to e n.sent))
                                  (phase_with false (approved || contains e n.active_ecus)
                                    (approved ∷ verdicts_to e n.sent)))
                              (sym asked) (answers approved _ _))
                            (sym (ph' ∙ rw same refl)) path)
                    | inr other ↦ stays (ph' ∙ rw other refl) path
                  ]))
          ]

    within :
        {x y : Phase} {b polls : Bool}
        → polls ≡ b
        → (Moves e b p x → Moves e b p y)
        → Moves e polls p x
        → Moves e polls p y
    within {x} {y} same f = subst (λ k. Moves e k p x → Moves e k p y) (sym same) f

    Moves-Kept :
        (polls : Bool) → Kept aes_cmac (λ b env. polls ≡ b) (λ n. Moves e polls p (phase e n))
    Moves-Kept polls = record {
      by_lock = λ env n path. stays (phase-lock e env n) path;
      by_notice = λ env name n path. stays (phase-notice e env name n) path;
      by_timeout = timeout-Moves;
      by_answer = λ r n path. stays (phase-answer e r n.futures n) path;
      by_verify = λ env did frame n path. path;
      by_queue = λ queue n path. path;
      by_spool = λ seq spool n path. path;
      by_flag = λ flag n path. path;
      by_release = release-Moves;
      by_self = self-Moves;
      by_idle = λ n path. stays (phase-idle e n) path;
      by_drop = drop-Moves;
      by_ask = λ env flow slot oid n outside f none_left.
          within outside (ask-Moves env flow slot oid n none_left);
      by_fail_open = λ env flow slot n outside f. within outside (fail_open-Moves env flow slot n);
      by_settle = λ env name q approved n inside there.
          within inside (settle-Moves env name q approved n there);
    }

  -- A callback that raises ends the run.
  after_callback :
      {p : Phase} (polls : Bool) (events : List (Env × Event)) (o : Outcome)
      → ((n : Node)
          → Course e
              (map (λ met. is_poll met.1) events)
              (phase e n)
              (phase e (node_of (spin aes_cmac events n))))
      → Moves e polls p (phase e (node_of o))
      → Course e
          (polls ∷ map (λ met. is_poll met.1) events)
          p
          (phase e (node_of (o >>= spin aes_cmac events)))
  after_callback polls events (done m) later path = calls polls _ path (later m)
  after_callback polls events (raised m) later path = calls polls _ path (stops _ (phase e m))

  spin-refines :
      (events : List (Env × Event)) (n : Node)
      → Course e
          (map (λ met. is_poll met.1) events)
          (phase e n)
          (phase e (node_of (spin aes_cmac events n)))
  unfolding spin
  spin-refines [] n = stops [] (phase e n)
  spin-refines ((env, event) ∷ events) n =
      after_callback (is_poll event) events (step aes_cmac env event n) (spin-refines events) (
        kept_step (Moves-Kept {p = phase e n} (is_poll event)) env event refl n (rests (phase e n)))

  pub run-refines :
      (env : Env) (config : Config) (files : Files) (spool : Spool) (flag : Bool)
      (events : List (Env × Event))
      → Course e
          (false ∷ map (λ met. is_poll met.1) events)
          initial
          (phase e (node_of (init env config files spool flag >>= spin aes_cmac events)))
  unfolding initial fresh
  run-refines env config files spool flag events =
      after_callback false events (init env config files spool flag) (spin-refines events)
        (kept_init (Moves-Kept {p = initial} false) env config files spool flag (rests initial))
