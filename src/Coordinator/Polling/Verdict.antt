-- ===== src/Coordinator/Polling/Verdict.antt =====
-- What a verdict that was sent leaves, for `_poll_approvals`.
use ros2_ws_gp.Common.{
  ℕ, ◌≡◌, refl, Bool, true, false, Option, none, some, List, [], ◌∷◌, if◌then◌else◌, arith,
}
use ros2_ws_gp.Common.Dict.{Dict, insert, erase}
use ros2_ws_gp.Common.Text.{text_eq}
use ros2_ws_gp.Secoc.Bytes.{Bytes}
use ros2_ws_gp.Secoc.Codec.{secoc_build}
use ros2_ws_gp.Coordinator.Wire.{Says, secoc_build-Says}
use ros2_ws_gp.Coordinator.State.{Ecu, ecu_eq, Pending, Node, Env, Sent, done, bind-done}
use ros2_ws_gp.Coordinator.Lock.{update_lock_state}
use ros2_ws_gp.Coordinator.Approval.{
  put_frame, send_verdict, activate, take_down, after_verdict, with_files, verdict_byte, settle,
}

update_lock_state-pending : (env : Env) (n : Node) → (update_lock_state env n).pending ≡ n.pending
unfolding update_lock_state
update_lock_state-pending env n = ground arith

update_lock_state-sent : (env : Env) (n : Node) → (update_lock_state env n).sent ≡ n.sent
unfolding update_lock_state
update_lock_state-sent env n = ground arith

update_lock_state-active :
    (env : Env) (n : Node) → (update_lock_state env n).active_ecus ≡ n.active_ecus
unfolding update_lock_state
update_lock_state-active env n = ground arith

-- The ECUs that hold the vehicle after a verdict.
abbrev pub held_by : Env → Ecu → Bool → Dict Ecu ℕ → Dict Ecu ℕ
held_by env name approved ecus = if approved then insert name env.now ecus else ecus

after_verdict-fields :
    (env : Env) (name : Ecu) (approved : Bool) (n : Node)
    → let n' = after_verdict env name approved n in
      (n'.pending ≡ n.pending)
      × (n'.sent ≡ n.sent)
      × (n'.active_ecus ≡ held_by env name approved n.active_ecus)
unfolding after_verdict activate
after_verdict-fields env name true n =
    (update_lock_state-pending env _, update_lock_state-sent env _, update_lock_state-active env _)
after_verdict-fields env name false n =
    (update_lock_state-pending env _, update_lock_state-sent env _, update_lock_state-active env _)

-- One verdict frame more on the bus: it is for `name`, on its identifier, and says `approved`, as 1 or
-- 0 in the first byte, of the slot in the second.
abbrev pub Answers : Ecu → ℕ → ℕ → Bool → List Sent → List Sent → Type 0
Answers name can_id slot approved before after =
    (v : Sent) × (rest : Bytes) × (after ≡ v ∷ before)
    × (v.name ≡ name)
    × (v.can_id ≡ can_id)
    × (v.frame ≡ (if approved then 1 else 0) ∷ slot ∷ rest)

pub put_frame-Answers :
    (env : Env) (name : Ecu) (can_id slot : ℕ) (approved : Bool) (built : Option (Bytes × ℕ))
    (n n' : Node)
    → Says approved slot built
    → put_frame env name can_id built n ≡ done n'
    → Answers name can_id slot approved n.sent n'.sent
      × (n'.pending ≡ n.pending)
      × (n'.active_ecus ≡ n.active_ecus)
unfolding put_frame
put_frame-Answers env name can_id slot approved none n n' says e = ground arith
put_frame-Answers env name can_id slot approved (some (frame, fv)) n n' says e =
    let (rest, begins) = says frame fv refl in
    (
      (
        record { can_id = can_id; frame = frame; name = name; fv = fv },
        rest,
        ground arith,
        refl,
        refl,
        begins,
      ),
      ground arith,
      ground arith,
    )

pub done-injective : {m n : Node} → done m ≡ done n → m ≡ n
done-injective e = cc

module _ (aes_cmac : Bytes → Bytes → Option Bytes) (env : Env) where
  -- What a verdict that was sent has done: one frame with this answer is on the bus, the prompt is
  -- no longer pending, and the ECU holds the vehicle if and only if it was approved.
  pub record Settles (name : Ecu) (p : Pending) (approved : Bool) (n n' : Node) : Type 0 where
    pub answered : Answers name p.appr_can_id p.slot approved n.sent n'.sent
    pub gone : n'.pending ≡ erase name n.pending
    pub held : n'.active_ecus ≡ held_by env name approved n.active_ecus

  pub settle-Settles :
      (name : Ecu) (p : Pending) (approved : Bool) (n n' : Node)
      → settle aes_cmac env name p approved n ≡ done n'
      → Settles name p approved n n'
  unfolding settle send_verdict take_down
  settle-Settles name p approved n n' e =
      let (built, files) =
        secoc_build aes_cmac (env.tx_disk name) n.config.key p.did_appr
          (verdict_byte approved ∷ p.slot ∷ []) n.files in
      let (m, sent, rest) =
        bind-done
          (put_frame env name p.appr_can_id built (with_files files (take_down env name p n))) _
          {n' = n'} e in
      let (answers, pending, active) =
        put_frame-Answers env name p.appr_can_id p.slot approved built
          (with_files files (take_down env name p n)) m
          (secoc_build-Says aes_cmac (env.tx_disk name) n.config.key p.did_appr p.slot approved
            n.files)
          sent in
      let fields = after_verdict-fields env name approved m in
      let same = done-injective rest in
      record {
        answered = rw (← same, fields.1) answers;
        gone = rw (← same, fields.0) pending;
        held = rw (← same, fields.2, active) refl;
      }
