-- ===== src/Tests/Coordinator.antt =====
-- The coordinator at concrete inputs.
use ros2_ws_gp.Common.{
  ℕ, ◌<◌, ◌≡◌, ◌≢◌, ◌⊎◌, any, refl, true, false, ◌&&◌, Option, none, some, List, [], ◌∷◌,
  if◌then◌else◌,
}
use ros2_ws_gp.Common.Dict.{Dict, lookup, contains}
use ros2_ws_gp.Common.Text.{Text, text_eq, codes}
use ros2_ws_gp.Secoc.Bytes.{Bytes, pack_u16, pack_u32}
use ros2_ws_gp.Secoc.Store.{working, store, load, read_counter}
use ros2_ws_gp.Secoc.Codec.{secoc_verify, accepted, secoc_build, finish_build, secoc_mac, message}
use ros2_ws_gp.Coordinator.State.{
  cluster, jetson, ecu_eq, ecu_beq, Config, Spool, OfferFile, foreign, Pending, Node, Env, done,
  node_of, ◌>>=◌, Flow,
}
use ros2_ws_gp.Coordinator.Spool.{ui_available, read_verdict, is_stale, sweep_offers}
use ros2_ws_gp.Coordinator.Lock.{success}
use ros2_ws_gp.Coordinator.Approval.{
  begin_approval, fail_open, send_verdict, put_frame, act_on, poll_found, poll_one, poll_each,
  poll_approvals, stop_if_idle,
}
use ros2_ws_gp.Coordinator.Handler.{cluster_flow, flow_of, What, did_of, handle_can}
use ros2_ws_gp.Coordinator.Node.{
  init, Event, frame_received, can_event, poll_due, self_start, self_done, service_answered, spin,
}
use ros2_ws_gp.Coordinator.Invariant.{run-IsSound}
use ros2_ws_gp.Coordinator.Invariant.Parts.{IsSound}
use ros2_ws_gp.Coordinator.Contract.{verdicts_to}
use ros2_ws_gp.Coordinator.Contract.Held.{run-held}
use ros2_ws_gp.Coordinator.Counters.{IsFresh}
use ros2_ws_gp.Coordinator.Counters.Run.{run-IsFresh}
use ros2_ws_gp.Coordinator.Polling.{Round, poll_one-Round, poll_approvals-deadline}
use ros2_ws_gp.Coordinator.Guard.{OnlyFiles, handle_can-OnlyFiles}
use ros2_ws_gp.Coordinator.Request.{Begun, begin_approval-Begun}
use ros2_ws_gp.Coordinator.Sweep.{lookup-sweep_offers}

abbrev no_tag : Bytes → Bytes → Option Bytes
no_tag key m = none

abbrev config : Config
config = record {
  key = [];
  require_approval = true;
  ui_max_age_ms = 5000;
  approve_on_no_verdict = true;
  timeout_ms = 900000;
}

abbrev empty : Spool
empty = record { offers = []; verdicts = []; notices = [] }

-- A head unit is up, the files can be written and the services are ready.
abbrev env : Env
env = record {
  now = 1000;
  rx_disk = working;
  tx_disk = λ name. working;
  can_ready = λ name. true;
  offers_dir = true;
  offers_writable = true;
  unlinks = λ folder name. true;
  verdict_readable = λ oid. true;
  notices_dir = true;
  notices_writable = true;
  alive_mtime = some 900;
  state_writable = true;
  lock_ready = true;
  unlock_ready = true;
}

abbrev started : Node
started = record {
  config = config;
  files = [];
  spool = empty;
  active_ecus = [];
  is_locked = false;
  lock_state_pending = false;
  timeout_timer = false;
  poll_timer = false;
  pending = [];
  offer_seq = 0;
  can_queue = [];
  self_update_flag = false;
  notice_timers = [];
  futures = [];
  sent = [];
}

abbrev prompt : Pending
prompt = record {
  id = codes "cluster-1-1";
  slot = 1;
  did_appr = 3;
  appr_can_id = 0x301;
  t0 = 0;
  deadline = 30000;
}

abbrev asking : Node
asking = record started { pending = (cluster, prompt) ∷ []; poll_timer = true }

abbrev events : List (Env × Event)
events = (env, self_start) ∷ (env, service_answered success) ∷ (env, self_done) ∷ []

run-IsSound_example : IsSound (node_of (init env config [] empty false >>= spin no_tag events))
run-IsSound_example = run-IsSound no_tag env config [] empty false events

-- A request of the cluster with any tag at all is taken by this one.
abbrev any_tag : Bytes → Bytes → Option Bytes
any_tag key m = some (9 ∷ 9 ∷ 9 ∷ 9 ∷ [])

abbrev asked_for : List (Env × Event)
asked_for =
    (env, frame_received 0x300 8 (0xA5 ∷ 1 ∷ 9 ∷ 9 ∷ 9 ∷ 9 ∷ 0 ∷ 1 ∷ []))
    ∷ (env, can_event)
    ∷ (record env { now = 40000 }, poll_due)
    ∷ []

run-IsFresh_example :
    IsFresh cluster (node_of (init env config [] empty false >>= spin any_tag asked_for))
run-IsFresh_example =
    run-IsFresh any_tag env config [] empty false asked_for
      ((λ name. refl), ((λ name. refl), ((λ name. refl), tt)))

cluster_other : cluster ≢ jetson
cluster_other e = cc

run-held_example :
    (contains cluster
        (node_of (init env config [] empty false >>= spin any_tag asked_for)).active_ecus
      ≡ false)
    ⊎ (any
          (λ approved. approved)
          (verdicts_to cluster
            (node_of (init env config [] empty false >>= spin any_tag asked_for)).sent)
        ≡ true)
run-held_example = run-held any_tag cluster env config [] empty false asked_for cluster_other

polled : poll_approvals no_tag env asking ≡ done asking
unfolding poll_approvals poll_each poll_one poll_found act_on read_verdict stop_if_idle ecu_eq
    ecu_beq
polled = refl

found : lookup cluster asking.pending ≡ some prompt
unfolding ecu_eq ecu_beq
found = refl

poll_approvals-deadline_example : (1000 < 30000) × (lookup cluster asking.pending ≡ some prompt)
poll_approvals-deadline_example =
    poll_approvals-deadline no_tag env asking asking cluster prompt polled found

polled_one : poll_one no_tag env cluster asking ≡ done asking
unfolding poll_one poll_found act_on read_verdict ecu_eq ecu_beq
polled_one = refl

poll_one-Round_example : Round no_tag env cluster asking asking
poll_one-Round_example = poll_one-Round no_tag env cluster asking asking polled_one

too_short :
    (f : Flow) (w : What) (p : Bytes) (c : ℕ)
    → flow_of 0x300 ≡ some f
    → (secoc_verify no_tag working [] (did_of f w) (0xA5 ∷ []) []).0 ≢ accepted p c
unfolding secoc_verify
too_short f w p c e h = cc

handle_can-OnlyFiles_example :
    OnlyFiles started (node_of (handle_can no_tag env (0x300, 8, 0xA5 ∷ []) started))
handle_can-OnlyFiles_example = handle_can-OnlyFiles no_tag env 0x300 8 (0xA5 ∷ []) started too_short

-- With no head unit up the request is granted.
abbrev alone : Env
alone = record env { alive_mtime = none }

abbrev requested : Node
requested = node_of (begin_approval any_tag alone cluster_flow 7 started)

granted : begin_approval any_tag alone cluster_flow 7 started ≡ done requested
unfolding begin_approval ui_available fail_open send_verdict secoc_build finish_build secoc_mac
    message pack_u16 pack_u32 store put_frame load read_counter
granted = refl

begin_approval-Begun_example : Begun alone cluster_flow 7 started requested
begin_approval-Begun_example =
    begin_approval-Begun alone cluster_flow 7 any_tag started requested granted

abbrev listed : Dict Text OfferFile
listed = (codes "cluster-1-1.json", foreign) ∷ (codes "map.json", foreign) ∷ []

lookup-sweep_offers_example :
    lookup (codes "map.json") (sweep_offers env listed (record empty { offers = listed })).offers
    ≡ (if (is_stale (codes "map.json") && true) && contains (codes "map.json") listed
        then none
        else lookup (codes "map.json") listed)
lookup-sweep_offers_example =
    lookup-sweep_offers env (codes "map.json") listed (record empty { offers = listed })

not_jetson : cluster ≢ jetson
not_jetson h = cc
