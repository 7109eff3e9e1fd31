-- ===== src/Coordinator/Request.antt =====
-- What a request leads to, with every decision of `_begin_approval`.
use mathlib.Core.Path.{subst}
use ros2_ws_gp.Common.{
  ℕ, ◌+◌, ◌/◌, ◌≡◌, refl, ap, sym, ◌∙◌, ◌⊎◌, inl, inr, true, false, not, ◌||◌, Option, none, some,
  [], ◌∷◌, ◌++◌, arith, Bool-cases,
}
use ros2_ws_gp.Common.Dict.{lookup, insert, lookup-insert_self}
use ros2_ws_gp.Common.Text.{Text, text_eq}
use ros2_ws_gp.Secoc.Bytes.{Bytes}
use ros2_ws_gp.Secoc.Codec.{secoc_build}
use ros2_ws_gp.Coordinator.State.{
  Ecu, ecu_eq, Flow, Offer, offered, Spool, Pending, Node, Env, done, bind-done,
}
use ros2_ws_gp.Coordinator.Spool.{json, slot_text, ui_available, offer_id, write_offer}
use ros2_ws_gp.Coordinator.Approval.{
  activate, put_frame, send_verdict, verdict_byte, with_files, fail_open, ask, take_down,
  drop_pending, drop_found, prompt, on_written, begin_approval,
}
use ros2_ws_gp.Coordinator.Wire.{secoc_build-Says}
use ros2_ws_gp.Coordinator.Polling.Verdict.{Answers, put_frame-Answers, done-injective}

module _ (env : Env) (flow : Flow) (slot : ℕ) where
  -- The driver can be asked: approval is required and a head unit is up.
  abbrev pub CanAsk : Node → Type 0
  CanAsk n = (n.config.require_approval ≡ true) × (ui_available env n.config ≡ true)

  -- The outcomes of a request that does not raise.
  pub data Begun (n n' : Node) : Type 0 where
    -- The offer stands in the spool under the identifier of the entry, and nothing goes out.
    asked :
        (p : Pending) (offer : Offer)
        → CanAsk n
        → lookup flow.name n'.pending ≡ some p
        → lookup (p.id ++ json) n'.spool.offers ≡ some (offered offer)
        → offer.id ≡ p.id
        → offer.target ≡ flow.name
        → p.slot ≡ slot
        → p.did_appr ≡ flow.did_appr
        → p.appr_can_id ≡ flow.appr_can_id
        → p.deadline ≡ env.now + flow.budget.deadline_ms
        → n'.poll_timer ≡ true
        → n'.sent ≡ n.sent
        → n'.active_ecus ≡ n.active_ecus
        → Begun n n'
    -- There is no one to ask, or the offer cannot be written: one approval goes out, and the vehicle is
    -- held for the ECU from now.
    granted :
        (CanAsk n → env.offers_writable ≡ false)
        → Answers flow.name flow.appr_can_id slot true n.sent n'.sent
        → n'.active_ecus ≡ insert flow.name env.now n.active_ecus
        → Begun n n'

  drop_found-fields :
      (name : Ecu) (found : Option Pending) (n : Node)
      → ((drop_found env name found n).sent ≡ n.sent)
        × ((drop_found env name found n).active_ecus ≡ n.active_ecus)
  unfolding drop_found take_down
  drop_found-fields name none n = (refl, refl)
  drop_found-fields name (some p) n = (refl, refl)

  drop_pending-fields :
      (n : Node)
      → ((drop_pending env flow.name n).sent ≡ n.sent)
        × ((drop_pending env flow.name n).active_ecus ≡ n.active_ecus)
  unfolding drop_pending
  drop_pending-fields n = drop_found-fields flow.name (lookup flow.name n.pending) n

  write_offer-cases :
      (oid : Text) (spool : Spool)
      → (let (written, spool') = write_offer env oid flow.name slot flow.budget spool in
          ((offer : Offer) × (written ≡ true)
            × (lookup (oid ++ json) spool'.offers ≡ some (offered offer))
            × (offer.id ≡ oid)
            × (offer.target ≡ flow.name))
          ⊎ ((written ≡ false) × (env.offers_writable ≡ false)))
  unfolding write_offer
  write_offer-cases oid spool =
      let offer : Offer = record {
        id = oid;
        target = flow.name;
        slot = slot_text slot;
        requested_at = env.now / 1000;
        expires_at = (env.now + flow.budget.deadline_ms) / 1000;
        auto_accept_ms = flow.budget.ui_ms;
        stops_vehicle = true;
      } in
      elim (Bool-cases env.offers_writable) [
        | inl writable ↦ inl (
          offer,
          rw writable refl,
          rw writable (lookup-insert_self (oid ++ json) (offered offer) spool.offers),
          refl,
          refl,
        )
        | inr failed ↦ inr (rw failed refl, failed)
      ]

  module _ (aes_cmac : Bytes → Bytes → Option Bytes) where
    fail_open-Answers :
        (n n' : Node)
        → fail_open aes_cmac env flow slot n ≡ done n'
        → Answers flow.name flow.appr_can_id slot true n.sent n'.sent
          × (n'.active_ecus ≡ insert flow.name env.now n.active_ecus)
    unfolding fail_open send_verdict activate
    fail_open-Answers n n' e =
        let (built, files) =
          secoc_build aes_cmac (env.tx_disk flow.name) n.config.key flow.did_appr
            (verdict_byte true ∷ slot ∷ []) n.files in
        let (m, out, rest) =
          bind-done (put_frame env flow.name flow.appr_can_id built (with_files files n)) _
            {n' = n'} e in
        let (answers, _, active) =
          put_frame-Answers env flow.name flow.appr_can_id slot true built (with_files files n) m
            (secoc_build-Says aes_cmac (env.tx_disk flow.name) n.config.key flow.did_appr slot true
              n.files)
            out in
        let same = done-injective rest in (rw (← same) answers, rw (← same, active) refl)

    prompt-Begun :
        (n m n' : Node)
        → CanAsk n
        → m.sent ≡ n.sent
        → m.active_ecus ≡ n.active_ecus
        → prompt aes_cmac env flow slot m ≡ done n'
        → Begun n n'
    unfolding prompt on_written ask
    prompt-Begun n m n' can sent active e =
        let oid = offer_id flow.name env.now (m.offer_seq + 1) in
        let (written, spool) = write_offer env oid flow.name slot flow.budget m.spool in
        let offering = record m { offer_seq = m.offer_seq + 1; spool = spool } in
        let go = on_written aes_cmac env flow slot oid in
        elim (write_offer-cases oid m.spool) [
          | inl (offer, written_, there, its_id, its_target) ↦
              (let same = done-injective (ap (λ w. go w offering) (sym written_) ∙ e) in
                subst (Begun n) same (
                  asked _ offer can (lookup-insert_self flow.name _ m.pending) there its_id
                    its_target refl refl refl refl refl sent active))
          | inr (unwritten, failed) ↦
              (let (answers, held) =
                  fail_open-Answers offering n' (ap (λ w. go w offering) (sym unwritten) ∙ e) in
                granted (λ _. failed) (rw (← sent) answers)
                  (held ∙ ap (insert flow.name env.now) active))
        ]

    -- What a request leads to, if it does not raise, is one of two things. Where approval is required, a
    -- head unit is up and the offer can be written, the offer stands in the spool and the entry of the
    -- ECU names it, with this slot and the deadline of the flow, and is polled; nothing is sent, and what
    -- holds the vehicle is as before. Otherwise one frame goes out that approves this slot, and the vehicle
    -- is held for the ECU from now.
    pub begin_approval-Begun :
        (n n' : Node) → begin_approval aes_cmac env flow slot n ≡ done n' → Begun n n'
    unfolding begin_approval
    begin_approval-Begun n n' e =
        elim (Bool-cases (not n.config.require_approval || not (ui_available env n.config))) [
          | inl nobody ↦
              (let (answers, held) = fail_open-Answers n n' (rw nobody at e) in
                granted (λ can. ground (arith, can.0, can.1)) answers held)
          | inr somebody ↦
              (let kept = drop_pending-fields n in
                prompt-Begun n (drop_pending env flow.name n) n' (ground arith) kept.0 kept.1
                  (rw somebody at e))
        ]
