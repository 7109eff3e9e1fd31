-- ===== src/Coordinator/Polling.antt =====
-- What one round of `_poll_approvals` decides, and what it leaves.
pub mod Verdict
use mathlib.Core.Path.{subst}
use ros2_ws_gp.Common.{
  ℕ, ◌≤◌, ◌<◌, ◌≡◌, refl, ap, sym, ◌∙◌, ◌≢◌, ◌⊎◌, inl, inr, Bool, true, false, Option, none, some,
  List, [], ◌∷◌, if◌then◌else◌, arith, Option-cases, Bool-cases, map, leb, leb→le,
}
use ros2_ws_gp.Common.Dict.{Dict, lookup, insert, erase, lookup-erase}
use ros2_ws_gp.Common.Text.{text_eq}
use ros2_ws_gp.Secoc.Bytes.{Bytes}
use ros2_ws_gp.Secoc.Codec.{secoc_build}
use ros2_ws_gp.Coordinator.State.{Ecu, ecu_eq, Pending, Node, Env, Sent, done, raised, bind-done}
use ros2_ws_gp.Coordinator.Spool.{Answer, silent, garbled, said, read_verdict}
use ros2_ws_gp.Coordinator.Lock.{update_lock_state}
use ros2_ws_gp.Coordinator.Approval.{
  put_frame, send_verdict, activate, take_down, after_verdict, stop_if_idle, with_files,
  verdict_byte, settle, resolve, resolve_found, act_on, poll_one, poll_found, poll_each,
  poll_approvals,
}
use ros2_ws_gp.Coordinator.Polling.Verdict.{done-injective, Settles, settle-Settles}

-- The entry of `j`, if there is one, has time left.
abbrev HasTime : Env → Ecu → Node → Type 0
HasTime env j n = (p : Pending) → lookup j n.pending ≡ some p → env.now < p.deadline

-- Nothing is pending that was not.
abbrev Shrinks : Node → Node → Type 0
Shrinks n n' = (j : Ecu) (p : Pending) → lookup j n'.pending ≡ some p → lookup j n.pending ≡ some p

abbrev Among : Ecu → List Ecu → Type 0
Among j [] = ⊥
Among j (name ∷ names) = (name ≡ j) ⊎ Among j names

none-ne-some : {p : Pending} → none ≡ some p → ⊥
none-ne-some e = cc

lookup-Among :
    (j : Ecu) (p : Pending) (d : Dict Ecu Pending)
    → lookup j d ≡ some p
    → Among j (map (λ entry. entry.0) d)
lookup-Among j p [] e = cc
lookup-Among j p ((k, q) ∷ d) e = elim (Bool-cases (ecu_eq.beq k j)) [
  | inl same ↦ inl ((ecu_eq.beq_iff k j).0 same)
  | inr other ↦ inr (lookup-Among j p d (rw other at e))
]

start_duty :
    (env : Env) (j : Ecu) (n : Node) → HasTime env j n ⊎ Among j (map (λ entry. entry.0) n.pending)
start_duty env j n = elim (Option-cases (lookup j n.pending)) [
  | inl missing ↦ inl (λ p h. absurd (none-ne-some (sym missing ∙ h)))
  | inr (p, found) ↦ inr (lookup-Among j p n.pending found)
]

module _ (aes_cmac : Bytes → Bytes → Option Bytes) (env : Env) where
  -- What one round does for one entry: it waits on, silent and before its deadline; or it answers, as the
  -- verdict file says, or by the configured default once the deadline has passed.
  pub data Round (name : Ecu) (n n' : Node) : Type 0 where
    waits :
        (p : Pending)
        → lookup name n.pending ≡ some p
        → read_verdict env p.id n.spool ≡ silent
        → env.now < p.deadline
        → n' ≡ n
        → Round name n n'
    obeys :
        (p : Pending) (approved : Bool)
        → lookup name n.pending ≡ some p
        → read_verdict env p.id n.spool ≡ said approved
        → Settles aes_cmac env name p approved n n'
        → Round name n n'
    defaults :
        (p : Pending)
        → lookup name n.pending ≡ some p
        → read_verdict env p.id n.spool ≡ silent
        → p.deadline ≤ env.now
        → Settles aes_cmac env name p n.config.approve_on_no_verdict n n'
        → Round name n n'

  resolve-settle :
      (name : Ecu) (p : Pending) (approved : Bool) (n : Node)
      → lookup name n.pending ≡ some p
      → resolve aes_cmac env name approved n ≡ settle aes_cmac env name p approved n
  unfolding resolve resolve_found
  resolve-settle name p approved n e =
      ap (λ found. resolve_found aes_cmac env name found approved n) e

  act_on-Round :
      (name : Ecu) (p : Pending) (answer : Answer) (n n' : Node)
      → lookup name n.pending ≡ some p
      → read_verdict env p.id n.spool ≡ answer
      → act_on aes_cmac env name p answer n ≡ done n'
      → Round name n n'
  unfolding act_on
  act_on-Round name p (said approved) n n' found read e = obeys p approved found read (
      settle-Settles aes_cmac env name p approved n n'
        (sym (resolve-settle name p approved n found) ∙ e))
  act_on-Round name p garbled n n' found read e = ground arith
  act_on-Round name p silent n n' found read e = elim (Bool-cases (leb p.deadline env.now)) [
    | inl over ↦ defaults p found read (leb→le _ _ over) (
        settle-Settles aes_cmac env name p n.config.approve_on_no_verdict n n'
          (sym (resolve-settle name p n.config.approve_on_no_verdict n found) ∙ rw over at e))
    | inr early ↦ waits p found read (ground arith) (sym (done-injective (rw early at e)))
  ]

  -- What one round that returns does for an entry is one of three things: it waits, with no verdict and
  -- before the deadline; it sends the verdict of the file; or, with no verdict and the deadline reached,
  -- it sends the configured default. What is sent is one frame, and then the prompt is gone, and the ECU
  -- holds the vehicle anew exactly if it was approved.
  pub poll_one-Round :
      (name : Ecu) (n n' : Node) → poll_one aes_cmac env name n ≡ done n' → Round name n n'
  unfolding poll_one poll_found
  poll_one-Round name n n' e = elim (Option-cases (lookup name n.pending)) [
    | inl missing ↦
        let path : raised n ≡ done n' =
          sym (ap (λ found. poll_found aes_cmac env name found n) missing) ∙ e in
        cc
    | inr (p, found) ↦
        act_on-Round name p (read_verdict env p.id n.spool) n n' found refl
          (sym (ap (λ f. poll_found aes_cmac env name f n) found) ∙ e)
  ]

  gone-Shrinks :
      (name : Ecu) (d d' : Dict Ecu Pending)
      → d' ≡ erase name d
      → (j : Ecu) (p : Pending) → lookup j d' ≡ some p
      → (lookup j d ≡ some p) × (name ≢ j)
  gone-Shrinks name d d' e j p h =
      let found : (if ecu_eq.beq name j then none else lookup j d) ≡ some p =
        sym (lookup-erase j name d) ∙ (ap (lookup j) (sym e) ∙ h) in
      ground (arith, ecu_eq.beq_iff name j)

  same_deadline : (p q : Pending) → some q ≡ some p → env.now < p.deadline → env.now < q.deadline
  same_deadline p q e h = ground arith

  Round-HasTime : (name : Ecu) (n n' : Node) → Round name n n' → HasTime env name n' × Shrinks n n'
  Round-HasTime name n n' (waits p found silent_ early same) = (
    λ q h. same_deadline p q (sym h ∙ (ap (λ k. lookup name k.pending) same ∙ found)) early,
    λ j q h. rw (← same) h,
  )
  Round-HasTime name n n' (obeys p approved found said_ s) = (
    λ q h. absurd ((gone-Shrinks name n.pending n'.pending s.gone name q h).1 refl),
    λ j q h. (gone-Shrinks name n.pending n'.pending s.gone j q h).0,
  )
  Round-HasTime name n n' (defaults p found silent_ over s) = (
    λ q h. absurd ((gone-Shrinks name n.pending n'.pending s.gone name q h).1 refl),
    λ j q h. (gone-Shrinks name n.pending n'.pending s.gone j q h).0,
  )

  next_duty :
      (name j : Ecu) (n m : Node) (names : List Ecu)
      → HasTime env name m
      → Shrinks n m
      → HasTime env j n ⊎ Among j (name ∷ names)
      → HasTime env j m ⊎ Among j names
  next_duty name j n m names timed shrunk (inl h) = inl (λ p found. h p (shrunk j p found))
  next_duty name j n m names timed shrunk (inr (inl same)) =
      inl (subst (λ k. HasTime env k m) same timed)
  next_duty name j n m names timed shrunk (inr (inr later)) = inr later

  poll_each-HasTime :
      (names : List Ecu) (n n' : Node) (j : Ecu)
      → poll_each aes_cmac env names n ≡ done n'
      → HasTime env j n ⊎ Among j names
      → HasTime env j n' × Shrinks n n'
  unfolding poll_each
  poll_each-HasTime [] n n' j e (inl h) =
      let same = done-injective e in (rw (← same) h, λ k p q. rw same q)
  poll_each-HasTime [] n n' j e (inr h) = elim h [ ]
  poll_each-HasTime (name ∷ names) n n' j e h =
      let (m, first, rest) = bind-done (poll_one aes_cmac env name n) _ {n' = n'} e in
      let (timed, shrunk) = Round-HasTime name n m (poll_one-Round name n m first) in
      let (timed', shrunk') =
        poll_each-HasTime names m n' j rest (next_duty name j n m names timed shrunk h) in
      (timed', λ k p q. shrunk k p (shrunk' k p q))

stop_if_idle-pending : (n : Node) → (stop_if_idle n).pending ≡ n.pending
unfolding stop_if_idle
stop_if_idle-pending n = ground arith

module _ (aes_cmac : Bytes → Bytes → Option Bytes) (env : Env) where
  -- After a round of polling that returns, nothing is pending whose deadline has passed, and nothing
  -- that was not pending before. So a prompt that is polled at its deadline is answered then.
  pub poll_approvals-deadline :
      (n n' : Node) (j : Ecu) (p : Pending)
      → poll_approvals aes_cmac env n ≡ done n'
      → lookup j n'.pending ≡ some p
      → (env.now < p.deadline) × (lookup j n.pending ≡ some p)
  unfolding poll_approvals
  poll_approvals-deadline n n' j p e h =
      let names = map (λ entry. entry.0) n.pending in
      let (m, polled, rest) = bind-done (poll_each aes_cmac env names n) _ {n' = n'} e in
      let same : n'.pending ≡ m.pending =
        ap (λ k. k.pending) (sym (done-injective rest)) ∙ stop_if_idle-pending m in
      let left : lookup j m.pending ≡ some p = ap (lookup j) (sym same) ∙ h in
      let (timed, shrunk) =
        poll_each-HasTime aes_cmac env names n m j polled (start_duty env j n) in
      (timed p left, shrunk j p left)
