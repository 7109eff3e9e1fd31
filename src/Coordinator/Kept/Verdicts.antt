-- ===== src/Coordinator/Kept/Verdicts.antt =====
-- Asking and answering keep what the changes of state keep.
use ros2_ws_gp.Common.{
  ℕ, ◌≡◌, refl, inl, inr, Bool, true, false, Option, none, some, List, [], ◌∷◌, arith, map,
  Option-cases,
}
use ros2_ws_gp.Common.Dict.{lookup, contains, lookup-erase, beq_refl}
use ros2_ws_gp.Common.Text.{Text}
use ros2_ws_gp.Secoc.Bytes.{Bytes}
use ros2_ws_gp.Coordinator.State.{Ecu, ecu_eq, Flow, Pending, Node, Env, node_of, bind_rule}
use ros2_ws_gp.Coordinator.Spool.{Answer, silent, garbled, said, read_verdict}
use ros2_ws_gp.Coordinator.Approval.{
  resolve_found, poll_found, take_down, on_written, drop_found, drop_pending, prompt,
  begin_approval, resolve, act_on, poll_one, poll_each, poll_approvals,
}
use ros2_ws_gp.Coordinator.Kept.{Kept, IsFlow}

-- No prompt of the name is left.
pub contains-drop_pending :
    (env : Env) (name : Ecu) (n : Node) → contains name (drop_pending env name n).pending ≡ false
unfolding drop_pending drop_found take_down
contains-drop_pending env name n = elim (Option-cases (lookup name n.pending)) [
  | inl gone ↦ rw (gone, contains, gone) refl
  | inr (p, there) ↦ rw (there, contains, lookup-erase name name n.pending, beq_refl name) refl
]

module _ {aes_cmac : Bytes → Bytes → Option Bytes} {Good : Bool → Env → Type 0} {P : Node → Type 0}
    (k : Kept aes_cmac Good P) (env : Env) (good : Good false env) where
  kept_on_written :
      (flow : Flow) (slot : ℕ) (oid : Text) (written : Bool) (n : Node)
      → IsFlow flow
      → contains flow.name n.pending ≡ false
      → P n
      → P (node_of (on_written aes_cmac env flow slot oid written n))
  unfolding on_written
  kept_on_written flow slot oid true n f none_left h =
      k.by_ask env flow slot oid n good f none_left h
  kept_on_written flow slot oid false n f none_left h = k.by_fail_open env flow slot n good f h

  kept_prompt :
      (flow : Flow) (slot : ℕ) (n : Node)
      → IsFlow flow
      → contains flow.name n.pending ≡ false
      → P n
      → P (node_of (prompt aes_cmac env flow slot n))
  unfolding prompt
  kept_prompt flow slot n f none_left h =
      kept_on_written flow slot _ _ _ f none_left (k.by_spool _ _ n h)

  pub kept_begin_approval :
      (flow : Flow) (slot : ℕ) (n : Node)
      → IsFlow flow
      → P n
      → P (node_of (begin_approval aes_cmac env flow slot n))
  unfolding begin_approval
  kept_begin_approval flow slot n f h = ground (
    arith,
    k.by_fail_open env flow slot n good f h,
    kept_prompt flow slot (drop_pending env flow.name n) f (contains-drop_pending env flow.name n)
        (k.by_drop env flow.name n h),
  )

module _ {aes_cmac : Bytes → Bytes → Option Bytes} {Good : Bool → Env → Type 0} {P : Node → Type 0}
    (k : Kept aes_cmac Good P) (env : Env) (good : Good true env) where
  kept_resolve :
      (name : Ecu) (approved : Bool) (n : Node)
      → P n
      → P (node_of (resolve aes_cmac env name approved n))
  unfolding resolve resolve_found
  kept_resolve name approved n h = elim (Option-cases (lookup name n.pending)) [
    | inl gone ↦ rw gone h
    | inr (p, there) ↦ rw there (k.by_settle env name p approved n good there h)
  ]

  kept_act_on :
      (name : Ecu) (p : Pending) (answer : Answer) (n : Node)
      → P n
      → P (node_of (act_on aes_cmac env name p answer n))
  unfolding act_on
  kept_act_on name p (said approved) n h = kept_resolve name approved n h
  kept_act_on name p garbled n h = h
  kept_act_on name p silent n h =
      ground (arith, kept_resolve name n.config.approve_on_no_verdict n h)

  kept_poll_found :
      (name : Ecu) (found : Option Pending) (n : Node)
      → P n
      → P (node_of (poll_found aes_cmac env name found n))
  unfolding poll_found
  kept_poll_found name none n h = h
  kept_poll_found name (some p) n h = kept_act_on name p (read_verdict env p.id n.spool) n h

  kept_poll_one : (name : Ecu) (n : Node) → P n → P (node_of (poll_one aes_cmac env name n))
  unfolding poll_one
  kept_poll_one name n h = kept_poll_found name (lookup name n.pending) n h

  kept_poll_each :
      (names : List Ecu) (n : Node) → P n → P (node_of (poll_each aes_cmac env names n))
  unfolding poll_each
  kept_poll_each [] n h = h
  kept_poll_each (name ∷ names) n h =
      bind_rule P (poll_one aes_cmac env name n) _ (kept_poll_one name n h) (kept_poll_each names)

  pub kept_poll_approvals : (n : Node) → P n → P (node_of (poll_approvals aes_cmac env n))
  unfolding poll_approvals
  kept_poll_approvals n h =
      bind_rule P (poll_each aes_cmac env (map (λ entry. entry.0) n.pending) n) _
        (kept_poll_each (map (λ entry. entry.0) n.pending) n h) k.by_idle
