-- ===== src/Coordinator/State.antt =====
-- What the coordinator remembers, what one callback meets, and the constants of the protocol.
-- Times are milliseconds; each callback runs at one instant.
use ros2_ws_gp.Common.{
  ℕ, ◌≡◌, refl, ◌↔◌, if◌then◌else◌, Bool, true, false, Option, List, [], ◌∷◌, ◌==◌, arith,
}
use ros2_ws_gp.Common.Dict.{Dict, Eq}
use ros2_ws_gp.Common.Text.{Text, codes}
use ros2_ws_gp.Secoc.Bytes.{Bytes}
use ros2_ws_gp.Secoc.Store.{Files, FileText, Disk}

-- The names that `active_ecus` and `_pending` are keyed by.
pub data Ecu : Type 0 where
  cluster esp32 jetson : Ecu

unfoldable pub ecu_beq : Ecu → Ecu → Bool
ecu_beq cluster cluster = true
ecu_beq esp32 esp32 = true
ecu_beq jetson jetson = true
ecu_beq _ _ = false

pub ecu_beq_iff : (a b : Ecu) → (ecu_beq a b ≡ true) ↔ (a ≡ b)
unfolding ecu_beq
ecu_beq_iff a b = ground arith

instance unfoldable pub ecu_eq : Eq Ecu
unfolding ecu_beq
ecu_eq = record { beq = ecu_beq; beq_iff = ecu_beq_iff }

abbrev pub ecu_text : Ecu → Text
ecu_text cluster = codes "cluster"
ecu_text esp32 = codes "esp32"
ecu_text jetson = codes "jetson"

-- The entries of `BUDGETS`; `jetson` has none.
pub record Budget : Type 0 where
  pub peer_wait_ms : ℕ
  pub ui_ms : ℕ
  pub deadline_ms : ℕ

-- One row of `flows` in `_handle_can`.
pub record Flow : Type 0 where
  pub name : Ecu
  pub did_req : ℕ
  pub did_run : ℕ
  pub did_appr : ℕ
  pub appr_can_id : ℕ
  pub budget : Budget

pub record Config : Type 0 where
  pub key : Bytes
  pub require_approval : Bool
  pub ui_max_age_ms : ℕ
  pub approve_on_no_verdict : Bool
  pub timeout_ms : ℕ

-- The file that `_write_offer` leaves for the head unit.
pub record Offer : Type 0 where
  pub id : Text
  pub target : Ecu
  pub slot : Text
  pub requested_at : ℕ
  pub expires_at : ℕ
  pub auto_accept_ms : ℕ
  pub stops_vehicle : Bool

-- What stands in the offers folder: ours, or a file of another producer.
pub data OfferFile : Type 0 where
  offered : Offer → OfferFile
  foreign : OfferFile

-- A completion notice, with the time in it.
pub data NoticeFile : Type 0 where
  noticed : Ecu → ℕ → NoticeFile
  foreign_notice : NoticeFile

-- The folders under `approval_dir`.
pub record Spool : Type 0 where
  pub offers : Dict Text OfferFile
  pub verdicts : Dict Text FileText
  pub notices : Dict Text NoticeFile

-- An entry of `_pending`.
pub record Pending : Type 0 where
  pub id : Text
  pub slot : ℕ
  pub did_appr : ℕ
  pub appr_can_id : ℕ
  pub t0 : ℕ
  pub deadline : ℕ

pub data Label : Type 0 where
  lock unlock : Label

-- A verdict frame on the bus, with the ECU that it is for and its whole counter.
pub record Sent : Type 0 where
  pub can_id : ℕ
  pub frame : Bytes
  pub name : Ecu
  pub fv : ℕ

-- What a requester reads in the frame: its first byte is 1 for an approval.
abbrev pub is_approval : Bytes → Bool
is_approval [] = false
is_approval (verdict ∷ _) = verdict == 1

-- The fields of `UpdateCoordinator`, the files that it owns, the calls of the emergency stop that
-- are not answered, and what it has put on the bus, the latest first.
pub record Node : Type 0 where
  pub config : Config
  pub files : Files
  pub spool : Spool
  pub active_ecus : Dict Ecu ℕ
  pub is_locked : Bool
  pub lock_state_pending : Bool
  pub timeout_timer : Bool
  pub poll_timer : Bool
  pub pending : Dict Ecu Pending
  pub offer_seq : ℕ
  pub can_queue : List (ℕ × ℕ × Bytes)
  pub self_update_flag : Bool
  pub notice_timers : List Text
  pub futures : List Label
  pub sent : List Sent

-- The folders of the spool.
pub data Folder : Type 0 where
  in_offers in_verdicts in_notices : Folder

-- What a callback meets outside the node.
pub record Env : Type 0 where
  pub now : ℕ
  pub rx_disk : Disk
  pub tx_disk : Ecu → Disk
  pub can_ready : Ecu → Bool
  pub offers_dir : Bool
  pub offers_writable : Bool
  -- Whether a file of the spool can be removed, and a verdict that is there be read.
  pub unlinks : Folder → Text → Bool
  pub verdict_readable : Text → Bool
  pub notices_dir : Bool
  pub notices_writable : Bool
  pub alive_mtime : Option ℕ
  pub state_writable : Bool
  pub lock_ready : Bool
  pub unlock_ready : Bool

-- A callback returns, or raises with what it had done until then; `main` then shuts the node down.
pub data Outcome : Type 0 where
  done : Node → Outcome
  raised : Node → Outcome

abbrev pub node_of : Outcome → Node
node_of (done n) = n
node_of (raised n) = n

infixl 5 ◌>>=◌
abbrev pub ◌>>=◌ : Outcome → (Node → Outcome) → Outcome
done n >>= f = f n
raised n >>= f = raised n

-- What holds of the node however the first callback ends, and is kept by the second, holds at the end.
pub bind_rule :
    (P : Node → Type 0) (o : Outcome) (f : Node → Outcome)
    → P (node_of o)
    → ((n : Node) → P n → P (node_of (f n)))
    → P (node_of (o >>= f))
bind_rule P (done n) f h k = k n h
bind_rule P (raised n) f h k = h

pub if_rule :
    (P : Node → Type 0) (b : Bool) (x y : Outcome)
    → P (node_of x)
    → P (node_of y)
    → P (node_of (if b then x else y))
if_rule P true x y h k = h
if_rule P false x y h k = k

-- A chain that returned went through its first callback.
pub bind-done :
    (o : Outcome) (f : Node → Outcome) {n' : Node}
    → (o >>= f) ≡ done n'
    → (m : Node) × (o ≡ done m) × (f m ≡ done n')
bind-done (done n) f e = (n, refl, e)
bind-done (raised n) f e = cc
