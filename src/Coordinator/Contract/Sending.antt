-- ===== src/Coordinator/Contract/Sending.antt =====
-- What a verdict that goes out is to the phase of one ECU.
use ros2_ws_gp.Common.{
  ◌≡◌, refl, ap, ◌∙◌, ◌⊎◌, inl, inr, ℕ, Bool, true, false, ◌||◌, Option, none, some, [], ◌∷◌,
  Bool-cases, arith, if◌then◌else◌,
}
use ros2_ws_gp.Common.Dict.{contains}
use ros2_ws_gp.Secoc.Bytes.{Bytes}
use ros2_ws_gp.Secoc.Codec.{secoc_build}
use ros2_ws_gp.Coordinator.State.{Ecu, ecu_eq, Sent, Node, Env, Outcome, done, raised}
use ros2_ws_gp.Coordinator.Approval.{
  activate, after_verdict, put_frame, send_verdict, with_files, verdict_byte,
}
use ros2_ws_gp.Coordinator.Wire.{Says, secoc_build-Says, Says-is_approval}
use ros2_ws_gp.Coordinator.Contract.{phase_with, verdicts_to, phase}
use ros2_ws_gp.Coordinator.Contract.Phases.{contains-insert, phase-lock}

module _ (e : Ecu) where
  -- A verdict to `name` did not go out, or it is the latest; nothing else has changed.
  abbrev pub IsSending : Ecu → Bool → Node → Outcome → Type 0
  IsSending name approved n o =
      ((m : Node) × (o ≡ raised m) × (phase e m ≡ phase e n))
      ⊎ ((m : Node) × (o ≡ done m)
          × (phase e m
              ≡ phase_with (contains e n.pending) (contains e n.active_ecus) (
                  if ecu_eq.beq name e
                  then approved ∷ verdicts_to e n.sent
                  else verdicts_to e n.sent)))

  put_frame-IsSending :
      (env : Env) (name : Ecu) (can_id slot : ℕ) (approved : Bool) (built : Option (Bytes × ℕ))
      (n : Node)
      → Says approved slot built
      → IsSending name approved n (put_frame env name can_id built n)
  unfolding put_frame
  put_frame-IsSending env name can_id slot approved none n says = inl (n, refl, refl)
  put_frame-IsSending env name can_id slot approved (some (frame, fv)) n says =
      let verdict : Sent = record { can_id = can_id; frame = frame; name = name; fv = fv } in
      let out = record n { sent = verdict ∷ n.sent } in
      elim (Bool-cases (env.can_ready name)) [
        | inr dead ↦ inl (n, rw dead refl, refl)
        | inl ready ↦ elim (Bool-cases (ecu_eq.beq name e)) [
          | inl same ↦ inr (
            out,
            rw ready refl,
            rw same (
                ap
                  (λ b.
                    phase_with (contains e n.pending) (contains e n.active_ecus)
                      (b ∷ verdicts_to e n.sent))
                  (Says-is_approval approved slot _ frame fv says refl)),
          )
          | inr other ↦ inr (out, rw ready refl, rw other refl)
        ]
      ]

  pub phase-activate :
      (env : Env) (name : Ecu) (n : Node)
      → phase e (activate env name n)
        ≡ phase_with
            (contains e n.pending)
            (if ecu_eq.beq name e then true else contains e n.active_ecus)
            (verdicts_to e n.sent)
  unfolding activate
  phase-activate env name n =
      ap (λ b. phase_with (contains e n.pending) b (verdicts_to e n.sent))
        (contains-insert e name env.now n.active_ecus)

  pub phase-after_verdict :
      (env : Env) (name : Ecu) (approved : Bool) (n : Node)
      → phase e (after_verdict env name approved n)
        ≡ phase_with
            (contains e n.pending)
            (if ecu_eq.beq name e
              then approved || contains e n.active_ecus
              else contains e n.active_ecus)
            (verdicts_to e n.sent)
  unfolding after_verdict
  phase-after_verdict env name true n =
      phase-lock e env (activate env name n) ∙ phase-activate env name n
  phase-after_verdict env name false n = phase-lock e env n ∙ ground arith

module _ (aes_cmac : Bytes → Bytes → Option Bytes) (e : Ecu) where
  pub send_verdict-IsSending :
      (env : Env) (name : Ecu) (did can_id slot : ℕ) (approved : Bool) (n : Node)
      → IsSending e name approved n (send_verdict aes_cmac env name did can_id slot approved n)
  unfolding send_verdict
  send_verdict-IsSending env name did can_id slot approved n =
      let (built, files) =
        secoc_build aes_cmac (env.tx_disk name) n.config.key did (verdict_byte approved ∷ slot ∷ [])
          n.files in
      put_frame-IsSending e env name can_id slot approved built (with_files files n)
        (secoc_build-Says aes_cmac (env.tx_disk name) n.config.key did slot approved n.files)
