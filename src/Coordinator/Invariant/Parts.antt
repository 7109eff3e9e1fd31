-- ===== src/Coordinator/Invariant/Parts.antt =====
-- The invariant of the coordinator, and the steps that send nothing.
use ros2_ws_gp.Common.{
  ℕ, ◌+◌, ◌≤◌, ◌≡◌, refl, ap, ◌⊎◌, inl, inr, Bool, true, false, Option, none, some, List, [], ◌∷◌,
  if◌then◌else◌, length, All, arith, Bool-cases,
}
use ros2_ws_gp.Common.Dict.{Dict, lookup, erase, All-insert, All-erase}
use ros2_ws_gp.Common.Text.{Text}
use ros2_ws_gp.Secoc.Bytes.{Bytes}
use ros2_ws_gp.Coordinator.State.{
  Ecu, cluster, esp32, jetson, ecu_eq, Flow, Pending, Label, Node, Env, node_of,
}
use ros2_ws_gp.Coordinator.Spool.{write_notice}
use ros2_ws_gp.Coordinator.Lock.{
  Response, on_service_done, update_lock_state, timeout_check, unexpired, any_expired,
}
use ros2_ws_gp.Coordinator.Approval.{
  drop_found, put_frame, take_down, after_verdict, stop_if_idle, activate, ask, drop_pending,
}
use ros2_ws_gp.Coordinator.Handler.{cluster_flow, esp32_flow, release}
use ros2_ws_gp.Coordinator.Node.{answer_call}

-- How long a requester waits for its verdict.
abbrev pub patience : Ecu → ℕ
patience cluster = cluster_flow.budget.peer_wait_ms
patience esp32 = esp32_flow.budget.peer_wait_ms
patience jetson = 0

-- The deadline of a prompt lies at least half a second before the end of its requester's wait.
abbrev pub IsTimed : Ecu × Pending → Type 0
IsTimed (name, p) = p.deadline + 500 ≤ p.t0 + patience name

-- Verdicts are looked for while one is outstanding; at most one call of the emergency stop is
-- open, exactly when the flag says so; every deadline leaves half a second to its requester.
pub record IsSound (n : Node) : Type 0 where
  pub polled : (n.poll_timer ≡ true) ⊎ (n.pending ≡ [])
  pub one_call : length n.futures ≡ (if n.lock_state_pending then 1 else 0)
  pub timed : All IsTimed n.pending

pub update_lock_state-IsSound :
    (env : Env) (n : Node) → IsSound n → IsSound (update_lock_state env n)
unfolding update_lock_state
update_lock_state-IsSound env n h = ground arith

pub write_notice-IsSound :
    (env : Env) (name : Ecu) (n : Node) → IsSound n → IsSound (write_notice env name n)
unfolding write_notice
write_notice-IsSound env name n h = ground arith

pub timeout_check-IsSound : (env : Env) (n : Node) → IsSound n → IsSound (timeout_check env n)
unfolding timeout_check
timeout_check-IsSound env n h =
    let left = record n { active_ecus = unexpired env.now n.config.timeout_ms n.active_ecus } in
    let left-IsSound : IsSound left = record {
      polled = h.polled;
      one_call = h.one_call;
      timed = h.timed;
    } in
    elim (Bool-cases (any_expired env.now n.config.timeout_ms n.active_ecus)) [
      | inl some_ ↦ rw some_ (update_lock_state-IsSound env left left-IsSound)
      | inr none_ ↦ rw none_ left-IsSound
    ]

pub on_service_done-IsSound :
    (label : Label) (r : Response) (rest : List Label) (n : Node)
    → n.futures ≡ label ∷ rest
    → IsSound n
    → IsSound (on_service_done label r rest n)
unfolding on_service_done
on_service_done-IsSound label r rest n e h = ground (arith, ap length e)

pub put_frame-IsSound :
    (env : Env) (name : Ecu) (can_id : ℕ) (built : Option (Bytes × ℕ)) (n : Node)
    → IsSound n
    → IsSound (node_of (put_frame env name can_id built n))
unfolding put_frame
put_frame-IsSound env name can_id none n h = h
put_frame-IsSound env name can_id (some (frame, fv)) n h = ground arith

pub ask-IsSound :
    (env : Env) (flow : Flow) (slot : ℕ) (oid : Text) (n : Node)
    → flow.budget.deadline_ms + 500 ≤ patience flow.name
    → IsSound n
    → IsSound (ask env flow slot oid n)
unfolding ask
ask-IsSound env flow slot oid n b h = record {
  polled = inl refl;
  one_call = h.one_call;
  timed = All-insert IsTimed flow.name _ n.pending (omega arith) h.timed;
}

erase-polled :
    (name : Ecu) (timer : Bool) (d : Dict Ecu Pending)
    → (timer ≡ true) ⊎ (d ≡ [])
    → (timer ≡ true) ⊎ (erase name d ≡ [])
erase-polled name timer d (inl on) = inl on
erase-polled name timer d (inr e) = inr (rw e)

pub take_down-IsSound :
    (env : Env) (name : Ecu) (p : Pending) (n : Node) → IsSound n → IsSound (take_down env name p n)
unfolding take_down
take_down-IsSound env name p n h = record {
  polled = erase-polled name n.poll_timer n.pending h.polled;
  one_call = h.one_call;
  timed = All-erase IsTimed name n.pending h.timed;
}

pub drop_found-IsSound :
    (env : Env) (name : Ecu) (found : Option Pending) (n : Node)
    → IsSound n
    → IsSound (drop_found env name found n)
unfolding drop_found
drop_found-IsSound env name none n h = h
drop_found-IsSound env name (some p) n h = take_down-IsSound env name p n h

pub drop_pending-IsSound :
    (env : Env) (name : Ecu) (n : Node) → IsSound n → IsSound (drop_pending env name n)
unfolding drop_pending
drop_pending-IsSound env name n h = drop_found-IsSound env name (lookup name n.pending) n h

pub activate-IsSound :
    (env : Env) (name : Ecu) (n : Node) → IsSound n → IsSound (activate env name n)
unfolding activate
activate-IsSound env name n h = record { polled = h.polled; one_call = h.one_call; timed = h.timed }

pub after_verdict-IsSound :
    (env : Env) (name : Ecu) (approved : Bool) (n : Node)
    → IsSound n
    → IsSound (after_verdict env name approved n)
unfolding after_verdict
after_verdict-IsSound env name true n h =
    update_lock_state-IsSound env (activate env name n) (activate-IsSound env name n h)
after_verdict-IsSound env name false n h = update_lock_state-IsSound env n h

pub stop_if_idle-IsSound : (n : Node) → IsSound n → IsSound (stop_if_idle n)
unfolding stop_if_idle
stop_if_idle-IsSound n h = ground arith

pub release-IsSound : (name : Ecu) (n : Node) → IsSound n → IsSound (release name n)
unfolding release
release-IsSound name n h = record { polled = h.polled; one_call = h.one_call; timed = h.timed }

pub answer_call-IsSound :
    (r : Response) (futures : List Label) (n : Node)
    → n.futures ≡ futures
    → IsSound n
    → IsSound (answer_call r futures n)
unfolding answer_call
answer_call-IsSound r [] n e h = h
answer_call-IsSound r (label ∷ rest) n e h = on_service_done-IsSound label r rest n e h

-- The flow's deadline comes before the end of its requester's patience.
abbrev pub IsBudgeted : Flow → Type 0
IsBudgeted flow = flow.budget.deadline_ms + 500 ≤ patience flow.name
