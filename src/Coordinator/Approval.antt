-- ===== src/Coordinator/Approval.antt =====
-- Asking the driver, and the verdict frames that answer a request.
use ros2_ws_gp.Common.{
  ℕ, ◌+◌, Bool, true, false, not, ◌||◌, Option, none, some, List, [], ◌∷◌, leb, if◌then◌else◌,
  is_empty, map,
}
use ros2_ws_gp.Common.Dict.{lookup, insert, erase}
use ros2_ws_gp.Common.Text.{Text}
use ros2_ws_gp.Secoc.Bytes.{Bytes}
use ros2_ws_gp.Secoc.Store.{Files}
use ros2_ws_gp.Secoc.Codec.{secoc_build}
use ros2_ws_gp.Coordinator.State.{
  Ecu, ecu_eq, Flow, Pending, Sent, Node, Env, Outcome, done, raised, ◌>>=◌,
}
use ros2_ws_gp.Coordinator.Spool.{
  offer_id, ui_available, write_offer, withdraw_offer, Answer, silent, garbled, said, read_verdict,
}
use ros2_ws_gp.Coordinator.Lock.{update_lock_state}

-- `VERDICT_APPROVE` and `VERDICT_DENY`
abbrev pub verdict_byte : Bool → ℕ
verdict_byte true = 1
verdict_byte false = 0

unfoldable pub activate : Env → Ecu → Node → Node
activate env name n = record n { active_ecus = insert name env.now n.active_ecus }

abbrev pub with_files : Files → Node → Node
with_files files n = record n { files = files }

-- The bus takes the frame that was built, or the socket raises.
unfoldable pub put_frame : Env → Ecu → ℕ → Option (Bytes × ℕ) → Node → Outcome
put_frame env name can_id none n = raised n
put_frame env name can_id (some (frame, fv)) n =
    if env.can_ready name then done (record n { sent = verdict ∷ n.sent }) else raised n
  where
    verdict : Sent
    verdict = record { can_id = can_id; frame = frame; name = name; fv = fv }

-- The entry of `_pending`, and the counter in its name.
unfoldable pub ask : Env → Flow → ℕ → Text → Node → Node
ask env flow slot oid n = record n { pending = insert flow.name entry n.pending; poll_timer = true }
  where
    entry : Pending
    entry = record {
      id = oid;
      slot = slot;
      did_appr = flow.did_appr;
      appr_can_id = flow.appr_can_id;
      t0 = env.now;
      deadline = env.now + flow.budget.deadline_ms;
    }

-- The entry leaves `_pending`, and its offer the spool.
unfoldable pub take_down : Env → Ecu → Pending → Node → Node
take_down env name p n = record n {
  pending = erase name n.pending;
  spool = withdraw_offer env p.id n.spool;
}

-- Only an approval holds the vehicle.
unfoldable pub after_verdict : Env → Ecu → Bool → Node → Node
after_verdict env name true n = update_lock_state env (activate env name n)
after_verdict env name false n = update_lock_state env n

-- A second request takes the first prompt down.
unfoldable pub drop_found : Env → Ecu → Option Pending → Node → Node
drop_found env name none n = n
drop_found env name (some old) n = take_down env name old n

unfoldable pub drop_pending : Env → Ecu → Node → Node
drop_pending env name n = drop_found env name (lookup name n.pending) n

unfoldable pub stop_if_idle : Node → Node
stop_if_idle n = if is_empty n.pending then record n { poll_timer = false } else n

module _ (aes_cmac : Bytes → Bytes → Option Bytes) where
  unfoldable pub send_verdict : Env → Ecu → ℕ → ℕ → ℕ → Bool → Node → Outcome
  send_verdict env name did_appr can_id slot approved n =
      let (built, files) =
        secoc_build aes_cmac (env.tx_disk name) n.config.key did_appr
          (verdict_byte approved ∷ slot ∷ []) n.files in
      put_frame env name can_id built (with_files files n)

  -- The request is approved without asking.
  unfoldable pub fail_open : Env → Flow → ℕ → Node → Outcome
  fail_open env flow slot n =
      send_verdict env flow.name flow.did_appr flow.appr_can_id slot true n >>= λ n'.
      done (activate env flow.name n')

  -- After `_write_offer`: the driver is asked, or there is no one to ask.
  unfoldable pub on_written : Env → Flow → ℕ → Text → Bool → Node → Outcome
  on_written env flow slot oid true n = done (ask env flow slot oid n)
  on_written env flow slot oid false n = fail_open env flow slot n

  -- The prompt goes up, once the one before it is down.
  unfoldable pub prompt : Env → Flow → ℕ → Node → Outcome
  prompt env flow slot n =
      let seq = n.offer_seq + 1 in
      let oid = offer_id flow.name env.now seq in
      let (written, spool) = write_offer env oid flow.name slot flow.budget n.spool in
      on_written env flow slot oid written (record n { offer_seq = seq; spool = spool })

  unfoldable pub begin_approval : Env → Flow → ℕ → Node → Outcome
  begin_approval env flow slot n =
      if not n.config.require_approval || not (ui_available env n.config)
      then fail_open env flow slot n
      else prompt env flow slot (drop_pending env flow.name n)

  -- `_resolve` of an entry that is pending.
  unfoldable pub settle : Env → Ecu → Pending → Bool → Node → Outcome
  settle env name p approved n =
      send_verdict env name p.did_appr p.appr_can_id p.slot approved (take_down env name p n)
      >>= λ n'. done (after_verdict env name approved n')

  unfoldable pub resolve_found : Env → Ecu → Option Pending → Bool → Node → Outcome
  resolve_found env name none approved n = done n
  resolve_found env name (some p) approved n = settle env name p approved n

  unfoldable pub resolve : Env → Ecu → Bool → Node → Outcome
  resolve env name approved n = resolve_found env name (lookup name n.pending) approved n

  -- One round of the loop in `_poll_approvals`. The KeyError of an entry that is gone does not occur:
  -- a round removes its own entry only.
  unfoldable pub act_on : Env → Ecu → Pending → Answer → Node → Outcome
  act_on env name p (said approved) n = resolve env name approved n
  act_on env name p garbled n = raised n
  act_on env name p silent n =
      if leb p.deadline env.now then resolve env name n.config.approve_on_no_verdict n else done n

  unfoldable pub poll_found : Env → Ecu → Option Pending → Node → Outcome
  poll_found env name none n = raised n
  poll_found env name (some p) n = act_on env name p (read_verdict env p.id n.spool) n

  unfoldable pub poll_one : Env → Ecu → Node → Outcome
  poll_one env name n = poll_found env name (lookup name n.pending) n

  unfoldable pub poll_each : Env → List Ecu → Node → Outcome
  poll_each env [] n = done n
  poll_each env (name ∷ names) n = poll_one env name n >>= λ n'. poll_each env names n'

  unfoldable pub poll_approvals : Env → Node → Outcome
  poll_approvals env n =
      poll_each env (map (λ entry. entry.0) n.pending) n >>= λ n'. done (stop_if_idle n')
