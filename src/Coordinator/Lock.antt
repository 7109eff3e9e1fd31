-- ===== src/Coordinator/Lock.antt =====
-- Holding the vehicle: the calls of `/emergency_stop/lock` and `unlock`, and the timers.
use ros2_ws_gp.Common.{
  ℕ, ◌+◌, Bool, true, false, not, ◌&&◌, List, [], ◌∷◌, ltb, if◌then◌else◌, is_empty,
}
use ros2_ws_gp.Common.Dict.{Dict}
use ros2_ws_gp.Coordinator.State.{Ecu, Label, lock, unlock, Node, Env}

-- What the future of a Trigger call ends with.
pub data Response : Type 0 where
  success refusal failure : Response

abbrev pub is_ready : Env → Label → Bool
is_ready env lock = env.lock_ready
is_ready env unlock = env.unlock_ready

unfoldable pub call_service : Env → Label → Node → Node
call_service env label n =
    if is_ready env label
    then record n { lock_state_pending = true; futures = label ∷ n.futures }
    else n

unfoldable pub update_lock_state : Env → Node → Node
unfolding call_service
update_lock_state env n =
    if n.lock_state_pending
    then n
    else (let should_lock = not (is_empty n.active_ecus) in
        let timed = record n { timeout_timer = should_lock } in
        if should_lock && not n.is_locked
        then call_service env lock timed
        else if not should_lock && n.is_locked
        then call_service env unlock timed
        else timed)

abbrev is_lock : Label → Bool
is_lock lock = true
is_lock unlock = false

-- `_on_service_done`, with the futures that are left.
unfoldable pub on_service_done : Label → Response → List Label → Node → Node
on_service_done label success rest n = record n {
  lock_state_pending = false;
  futures = rest;
  is_locked = is_lock label;
}
on_service_done label refusal rest n = record n { lock_state_pending = false; futures = rest }
on_service_done label failure rest n = record n { lock_state_pending = false; futures = rest }

-- `[name for name, t in active_ecus.items() if not now - t > timeout]`: what the deletions leave.
unfoldable pub unexpired : ℕ → ℕ → Dict Ecu ℕ → Dict Ecu ℕ
unexpired now timeout [] = []
unexpired now timeout ((name, t) ∷ ecus) =
    let rest = unexpired now timeout ecus in
    if ltb (t + timeout) now then rest else (name, t) ∷ rest

unfoldable pub any_expired : ℕ → ℕ → Dict Ecu ℕ → Bool
any_expired now timeout [] = false
any_expired now timeout ((name, t) ∷ ecus) =
    let rest = any_expired now timeout ecus in if ltb (t + timeout) now then true else rest

unfoldable pub timeout_check : Env → Node → Node
unfolding unexpired any_expired update_lock_state
timeout_check env n =
    let left = record n { active_ecus = unexpired env.now n.config.timeout_ms n.active_ecus } in
    if any_expired env.now n.config.timeout_ms n.active_ecus
    then update_lock_state env left
    else left
