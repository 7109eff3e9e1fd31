-- ===== src/Coordinator/Counters/Run.antt =====
-- Every change of the node's state keeps the counters of the verdicts fresh.
use ros2_ws_gp.Common.{
  ℕ, ◌≡◌, refl, inl, inr, Bool, true, false, Option, some, List, [], ◌∷◌, All, arith, Bool-cases,
  Option-cases,
}
use ros2_ws_gp.Common.Dict.{Dict, lookup, All-insert, All-erase}
use ros2_ws_gp.Common.Text.{Text}
use ros2_ws_gp.Secoc.Bytes.{Bytes}
use ros2_ws_gp.Secoc.Store.{tx, Files}
use ros2_ws_gp.Secoc.Codec.Freshness.{secoc_verify-keeps}
use ros2_ws_gp.Coordinator.State.{
  Ecu, jetson, ecu_eq, Flow, Pending, Label, Config, Spool, Node, Env, node_of, ◌>>=◌, bind_rule,
}
use ros2_ws_gp.Coordinator.Spool.{write_notice}
use ros2_ws_gp.Coordinator.Lock.{
  Response, on_service_done, update_lock_state, timeout_check, any_expired, unexpired,
}
use ros2_ws_gp.Coordinator.Approval.{
  activate, ask, drop_pending, drop_found, take_down, stop_if_idle, after_verdict, send_verdict,
  fail_open, settle,
}
use ros2_ws_gp.Coordinator.Handler.{release}
use ros2_ws_gp.Coordinator.Node.{answer_call, Event, init, spin, fresh}
use ros2_ws_gp.Coordinator.Kept.{IsFlow, Kept}
use ros2_ws_gp.Coordinator.Kept.Run.{kept_run}
use ros2_ws_gp.Coordinator.Counters.{verdict_did, IsNamed, IsFresh, send_verdict-IsFresh}

flow-IsNamed : (flow : Flow) → IsFlow flow → flow.did_appr ≡ verdict_did flow.name
flow-IsNamed flow (inl e) = rw e refl
flow-IsNamed flow (inr e) = rw e refl

lookup-IsNamed :
    (name : Ecu) (d : Dict Ecu Pending) (p : Pending)
    → All IsNamed d
    → lookup name d ≡ some p
    → p.did_appr ≡ verdict_did name
lookup-IsNamed name [] p h e = cc
lookup-IsNamed name ((k, q) ∷ d) p h e =
    ground (arith, ecu_eq.beq_iff k name, lookup-IsNamed name d p h.1)

module _ {e : Ecu} where
  by_lock-IsFresh : (env : Env) (n : Node) → IsFresh e n → IsFresh e (update_lock_state env n)
  unfolding update_lock_state
  by_lock-IsFresh env n h = ground arith

  by_notice-IsFresh :
      (env : Env) (name : Ecu) (n : Node) → IsFresh e n → IsFresh e (write_notice env name n)
  unfolding write_notice
  by_notice-IsFresh env name n h = ground arith

  by_timeout-IsFresh : (env : Env) (n : Node) → IsFresh e n → IsFresh e (timeout_check env n)
  unfolding timeout_check
  by_timeout-IsFresh env n h =
      let left = record n { active_ecus = unexpired env.now n.config.timeout_ms n.active_ecus } in
      let left-IsFresh : IsFresh e left = record { spent = h.spent; named = h.named } in
      elim (Bool-cases (any_expired env.now n.config.timeout_ms n.active_ecus)) [
        | inl some_ ↦ rw some_ (by_lock-IsFresh env left left-IsFresh)
        | inr none_ ↦ rw none_ left-IsFresh
      ]

  by_answer-IsFresh :
      (r : Response) (futures : List Label) (n : Node)
      → IsFresh e n
      → IsFresh e (answer_call r futures n)
  unfolding answer_call on_service_done
  by_answer-IsFresh r [] n h = h
  by_answer-IsFresh r (label ∷ rest) n h = ground arith

  by_idle-IsFresh : (n : Node) → IsFresh e n → IsFresh e (stop_if_idle n)
  unfolding stop_if_idle
  by_idle-IsFresh n h = ground arith

  take_down-IsFresh :
      (env : Env) (name : Ecu) (p : Pending) (n : Node)
      → IsFresh e n
      → IsFresh e (take_down env name p n)
  unfolding take_down
  take_down-IsFresh env name p n h = record {
    spent = h.spent;
    named = All-erase IsNamed name n.pending h.named;
  }

  by_drop-IsFresh :
      (env : Env) (name : Ecu) (n : Node) → IsFresh e n → IsFresh e (drop_pending env name n)
  unfolding drop_pending drop_found
  by_drop-IsFresh env name n h = elim (Option-cases (lookup name n.pending)) [
    | inl gone ↦ rw gone h
    | inr (p, there) ↦ rw there (take_down-IsFresh env name p n h)
  ]

  by_ask-IsFresh :
      (env : Env) (flow : Flow) (slot : ℕ) (oid : Text) (n : Node)
      → IsFlow flow
      → IsFresh e n
      → IsFresh e (ask env flow slot oid n)
  unfolding ask
  by_ask-IsFresh env flow slot oid n f h = record {
    spent = h.spent;
    named = All-insert IsNamed flow.name _ n.pending (flow-IsNamed flow f) h.named;
  }

  activate-IsFresh :
      (env : Env) (name : Ecu) (n : Node) → IsFresh e n → IsFresh e (activate env name n)
  unfolding activate
  activate-IsFresh env name n h = record { spent = h.spent; named = h.named }

  after_verdict-IsFresh :
      (env : Env) (name : Ecu) (approved : Bool) (n : Node)
      → IsFresh e n
      → IsFresh e (after_verdict env name approved n)
  unfolding after_verdict
  after_verdict-IsFresh env name true n h =
      by_lock-IsFresh env (activate env name n) (activate-IsFresh env name n h)
  after_verdict-IsFresh env name false n h = by_lock-IsFresh env n h

-- The transmit counters that are there can be read.
abbrev pub CanRead : Env → Type 0
CanRead env = (name : Ecu) → (env.tx_disk name).reads ≡ true

module _ (aes_cmac : Bytes → Bytes → Option Bytes) {e : Ecu} where
  by_settle-IsFresh :
      (env : Env) (name : Ecu) (p : Pending) (approved : Bool) (n : Node)
      → CanRead env
      → lookup name n.pending ≡ some p
      → IsFresh e n
      → IsFresh e (node_of (settle aes_cmac env name p approved n))
  unfolding settle
  by_settle-IsFresh env name p approved n readable there h =
      bind_rule (IsFresh e)
        (send_verdict aes_cmac env name p.did_appr p.appr_can_id p.slot approved
          (take_down env name p n))
        _
        (send_verdict-IsFresh aes_cmac e env name p.did_appr p.appr_can_id p.slot approved
          (take_down env name p n) (readable name) (lookup-IsNamed name n.pending p h.named there)
          (take_down-IsFresh env name p n h))
        (after_verdict-IsFresh env name approved)

  by_fail_open-IsFresh :
      (env : Env) (flow : Flow) (slot : ℕ) (n : Node)
      → CanRead env
      → IsFlow flow
      → IsFresh e n
      → IsFresh e (node_of (fail_open aes_cmac env flow slot n))
  unfolding fail_open
  by_fail_open-IsFresh env flow slot n readable f h =
      bind_rule (IsFresh e)
        (send_verdict aes_cmac env flow.name flow.did_appr flow.appr_can_id slot true n) _
        (send_verdict-IsFresh aes_cmac e env flow.name flow.did_appr flow.appr_can_id slot true n
          (readable flow.name) (flow-IsNamed flow f) h)
        (activate-IsFresh env flow.name)

  IsFresh-Kept : Kept aes_cmac (λ polls env. CanRead env) (IsFresh e)
  IsFresh-Kept = record {
    by_lock = by_lock-IsFresh;
    by_notice = by_notice-IsFresh;
    by_timeout = by_timeout-IsFresh;
    by_answer = λ r n h. by_answer-IsFresh r n.futures n h;
    by_verify = λ env did frame n h. record {
      spent =
          rw
            (secoc_verify-keeps aes_cmac env.rx_disk n.config.key tx did (verdict_did e) frame
              n.files (λ same. cc (same.0)))
            h.spent;
      named = h.named;
    };
    by_queue = λ queue n h. record { spent = h.spent; named = h.named };
    by_spool = λ seq spool n h. record { spent = h.spent; named = h.named };
    by_flag = λ flag n h. record { spent = h.spent; named = h.named };
    by_release = λ name n h. unfold release in record { spent = h.spent; named = h.named };
    by_self = λ env n h. activate-IsFresh env jetson n h;
    by_idle = by_idle-IsFresh;
    by_drop = by_drop-IsFresh;
    by_ask = λ env flow slot oid n good f none_left h. by_ask-IsFresh env flow slot oid n f h;
    by_fail_open = by_fail_open-IsFresh;
    by_settle = by_settle-IsFresh;
  }

  -- From any counter files, whatever the bus and the events do until a callback raises, and while every
  -- read of a transmit counter that is there succeeds, though any store may fail: the verdict frames sent
  -- to an ECU have strictly rising counters, in full length, none above the one in its transmit file, and
  -- every approval in flight answers under the identifier of its ECU.
  pub run-IsFresh :
      (env : Env) (config : Config) (files : Files) (spool : Spool) (flag : Bool)
      (events : List (Env × Event))
      → All (λ met. CanRead met.0) events
      → IsFresh e (node_of (init env config files spool flag >>= spin aes_cmac events))
  unfolding fresh
  run-IsFresh env config files spool flag events readable =
      kept_run IsFresh-Kept env config files spool flag events readable
        (record { spent = tt; named = tt })
