-- ===== src/Coordinator/Contract/Phases.antt =====
-- What each change of the node's state is to the phase of one ECU.
use ros2_ws_gp.Common.{
  ◌≡◌, refl, sym, ap, ◌∙◌, inl, inr, ℕ, Bool, true, false, List, [], ◌∷◌, Bool-cases, Option-cases,
  arith, if◌then◌else◌,
}
use ros2_ws_gp.Common.Dict.{Dict, lookup, insert, erase, contains, lookup-insert, lookup-erase}
use mathlib.Core.Path.{subst}
use ros2_ws_gp.Common.Text.{Text}
use ros2_ws_gp.Coordinator.State.{Ecu, jetson, ecu_eq, Flow, Pending, Label, Node, Env}
use ros2_ws_gp.Coordinator.Spool.{write_notice}
use ros2_ws_gp.Coordinator.Lock.{
  Response, on_service_done, update_lock_state, timeout_check, unexpired, any_expired,
}
use ros2_ws_gp.Coordinator.Approval.{
  activate, ask, drop_pending, drop_found, take_down, stop_if_idle,
}
use ros2_ws_gp.Coordinator.Handler.{release}
use ros2_ws_gp.Coordinator.Node.{answer_call}
use ros2_ws_gp.Coordinator.Contract.{
  Phase, phase_with, verdicts_to, phase, Move, Moves, asks, withdraws, releases, holds_itself,
  then_moves,
}

pub contains-insert :
    {V : Type 0} (e name : Ecu) (v : V) (d : Dict Ecu V)
    → contains e (insert name v d) ≡ (if ecu_eq.beq name e then true else contains e d)
contains-insert e name v d = elim (Bool-cases (ecu_eq.beq name e)) [
  | inl same ↦ rw (contains, lookup-insert e name v d, same) refl
  | inr other ↦ rw (contains, lookup-insert e name v d, other) refl
]

pub contains-erase :
    {V : Type 0} (e name : Ecu) (d : Dict Ecu V)
    → contains e (erase name d) ≡ (if ecu_eq.beq name e then false else contains e d)
contains-erase e name d = elim (Bool-cases (ecu_eq.beq name e)) [
  | inl same ↦ rw (contains, lookup-erase e name d, same) refl
  | inr other ↦ rw (contains, lookup-erase e name d, other) refl
]

contains-unexpired :
    (e : Ecu) (now timeout : ℕ) (d : Dict Ecu ℕ)
    → contains e (unexpired now timeout d) ≡ true
    → contains e d ≡ true
unfolding unexpired
contains-unexpired e now timeout [] h = cc
contains-unexpired e now timeout ((name, t) ∷ d) h =
    ground (arith, contains-unexpired e now timeout d)

-- One move, or none.
module _ (e : Ecu) where
  pub phase-lock : (env : Env) (n : Node) → phase e (update_lock_state env n) ≡ phase e n
  unfolding update_lock_state
  phase-lock env n = ground arith

  pub phase-notice :
      (env : Env) (name : Ecu) (n : Node) → phase e (write_notice env name n) ≡ phase e n
  unfolding write_notice
  phase-notice env name n = ground arith

  pub phase-answer :
      (r : Response) (futures : List Label) (n : Node)
      → phase e (answer_call r futures n) ≡ phase e n
  unfolding answer_call on_service_done
  phase-answer r [] n = refl
  phase-answer r (label ∷ rest) n = ground arith

  pub phase-idle : (n : Node) → phase e (stop_if_idle n) ≡ phase e n
  unfolding stop_if_idle
  phase-idle n = ground arith

module _ {e : Ecu} {polls : Bool} {p : Phase} where
  pub stays : {q r : Phase} → r ≡ q → Moves e polls p q → Moves e polls p r
  stays same path = subst (Moves e polls p) (sym same) path

  pub moved : {q r s : Phase} → Move e polls q r → r ≡ s → Moves e polls p q → Moves e polls p s
  moved m same path = subst (Moves e polls p) same (then_moves path m)

  -- The vehicle is still held for `e`, or no longer.
  release_if :
      (n : Node) (held : Bool)
      → (held ≡ true → contains e n.active_ecus ≡ true)
      → Moves e polls p (phase e n)
      → Moves e polls p (phase_with (contains e n.pending) held (verdicts_to e n.sent))
  release_if n true h path =
      subst (λ b. Moves e polls p (phase_with (contains e n.pending) b (verdicts_to e n.sent)))
        (h refl) path
  release_if n false h path = then_moves path (releases _ _ _ _)

  pub release-Moves :
      (name : Ecu) (n : Node)
      → Moves e polls p (phase e n)
      → Moves e polls p (phase e (release name n))
  unfolding release
  release-Moves name n path =
      release_if n (contains e (erase name n.active_ecus))
        (ground (arith, contains-erase e name n.active_ecus)) path

  pub timeout-Moves :
      (env : Env) (n : Node)
      → Moves e polls p (phase e n)
      → Moves e polls p (phase e (timeout_check env n))
  unfolding timeout_check
  timeout-Moves env n path =
      let left = record n { active_ecus = unexpired env.now n.config.timeout_ms n.active_ecus } in
      let path' =
        release_if n (contains e left.active_ecus)
          (contains-unexpired e env.now n.config.timeout_ms n.active_ecus) path in
      elim (Bool-cases (any_expired env.now n.config.timeout_ms n.active_ecus)) [
        | inl some_ ↦ rw some_ (stays (phase-lock e env left) path')
        | inr none_ ↦ rw none_ path'
      ]

  pub self-Moves :
      (env : Env) (n : Node)
      → Moves e polls p (phase e n)
      → Moves e polls p (phase e (activate env jetson n))
  unfolding activate
  self-Moves env n path = elim (Bool-cases (ecu_eq.beq jetson e)) [
    | inl same ↦
        moved (holds_itself _ _ _ _ (sym ((ecu_eq.beq_iff jetson e).0 same)))
          (ap (λ b. phase_with (contains e n.pending) b (verdicts_to e n.sent))
            (sym (contains-insert e jetson env.now n.active_ecus ∙ rw same refl)))
          path
    | inr other ↦
        stays
          (ap (λ b. phase_with (contains e n.pending) b (verdicts_to e n.sent))
            (contains-insert e jetson env.now n.active_ecus ∙ rw other refl))
          path
  ]

  -- The prompt of a name is taken down.
  pub erased-Moves :
      (env : Env) (name : Ecu) (q : Pending) (n : Node)
      → Moves e polls p (phase e n)
      → Moves e polls p (phase e (take_down env name q n))
  unfolding take_down
  erased-Moves env name q n path = elim (Bool-cases (ecu_eq.beq name e)) [
    | inl same ↦
        moved (withdraws _ _ _ _)
          (ap (λ b. phase_with b (contains e n.active_ecus) (verdicts_to e n.sent))
            (sym (contains-erase e name n.pending ∙ rw same refl)))
          path
    | inr other ↦
        stays
          (ap (λ b. phase_with b (contains e n.active_ecus) (verdicts_to e n.sent))
            (contains-erase e name n.pending ∙ rw other refl))
          path
  ]

  pub drop-Moves :
      (env : Env) (name : Ecu) (n : Node)
      → Moves e polls p (phase e n)
      → Moves e polls p (phase e (drop_pending env name n))
  unfolding drop_pending drop_found
  drop-Moves env name n path = elim (Option-cases (lookup name n.pending)) [
    | inl gone ↦ rw gone path
    | inr (q, there) ↦ rw there (erased-Moves env name q n path)
  ]

module _ {e : Ecu} {p : Phase} where
  pub ask-Moves :
      (env : Env) (flow : Flow) (slot : ℕ) (oid : Text) (n : Node)
      → contains flow.name n.pending ≡ false
      → Moves e false p (phase e n)
      → Moves e false p (phase e (ask env flow slot oid n))
  unfolding ask
  ask-Moves env flow slot oid n none_left path = elim (Bool-cases (ecu_eq.beq flow.name e)) [
    | inl same ↦
        (let here = (ecu_eq.beq_iff flow.name e).0 same in
          let unasked = ap (λ x. contains x n.pending) (sym here) ∙ none_left in
          moved
            (subst
              (λ b.
                Move e false (phase_with b (contains e n.active_ecus) (verdicts_to e n.sent))
                  (phase_with true (contains e n.active_ecus) (verdicts_to e n.sent)))
              (sym unasked) (asks _ _))
            (ap (λ b. phase_with b (contains e n.active_ecus) (verdicts_to e n.sent))
              (sym (contains-insert e flow.name _ n.pending ∙ rw same refl)))
            path)
    | inr other ↦
        stays
          (ap (λ b. phase_with b (contains e n.active_ecus) (verdicts_to e n.sent))
            (contains-insert e flow.name _ n.pending ∙ rw other refl))
          path
  ]
