-- ===== src/Coordinator/Contract.antt =====
-- What the coordinator promises about the approval of one ECU, as an abstract machine: whether its driver
-- is being asked, whether the vehicle is held for it, and the verdicts that went out to it.
pub mod Phases
pub mod Sending
pub mod Refines
pub mod Held
use ros2_ws_gp.Common.{◌≡◌, Bool, true, false, ◌||◌, List, [], ◌∷◌, map, select}
use ros2_ws_gp.Common.Dict.{contains}
use ros2_ws_gp.Coordinator.State.{Ecu, jetson, ecu_eq, is_approval, Sent, Node}

-- The verdicts are those that the requester reads in the frames sent, the latest first.
pub record Phase : Type 0 where
  pub asked : Bool
  pub held : Bool
  pub verdicts : List Bool

abbrev pub phase_with : Bool → Bool → List Bool → Phase
phase_with asked held verdicts = record { asked = asked; held = held; verdicts = verdicts }

abbrev pub verdicts_to : Ecu → List Sent → List Bool
verdicts_to e sent = map (λ s. is_approval s.frame) (select (λ s. ecu_eq.beq s.name e) sent)

-- The phase of `e` in the node.
abbrev pub phase : Ecu → Node → Phase
phase e n = phase_with (contains e n.pending) (contains e n.active_ecus) (verdicts_to e n.sent)

-- One move, in a round of polling or outside of one.
pub data Move (e : Ecu) : Bool → Phase → Phase → Type 0 where
  -- Outside of polling: the driver is asked, once the prompt before is down.
  asks :
      (held : Bool) (vs : List Bool)
      → Move e false (phase_with false held vs) (phase_with true held vs)
  -- A prompt goes down without a verdict.
  withdraws :
      (polls asked held : Bool) (vs : List Bool)
      → Move e polls (phase_with asked held vs) (phase_with false held vs)
  -- In a round of polling: a prompt is answered; an approval holds the vehicle, a denial leaves it as it
  -- was.
  answers :
      (approved held : Bool) (vs : List Bool)
      → Move e true (phase_with true held vs) (phase_with false (approved || held) (approved ∷ vs))
  -- Outside of polling: a request is approved without asking.
  grants :
      (asked held : Bool) (vs : List Bool)
      → Move e false (phase_with asked held vs) (phase_with asked true (true ∷ vs))
  -- The update runs, or has run out of time.
  releases :
      (polls asked held : Bool) (vs : List Bool)
      → Move e polls (phase_with asked held vs) (phase_with asked false vs)
  -- The update of the coordinator's own computer asks nobody.
  holds_itself :
      (polls asked held : Bool) (vs : List Bool)
      → e ≡ jetson
      → Move e polls (phase_with asked held vs) (phase_with asked true vs)

-- What one callback does: any number of moves of its kind.
pub data Moves (e : Ecu) (polls : Bool) : Phase → Phase → Type 0 where
  rests : (p : Phase) → Moves e polls p p
  then_moves : {p q r : Phase} → Moves e polls p q → Move e polls q r → Moves e polls p r

-- What the callbacks of a run do, each a round of polling or not; the run can end before the list does.
pub data Course (e : Ecu) : List Bool → Phase → Phase → Type 0 where
  stops : (kinds : List Bool) (p : Phase) → Course e kinds p p
  calls :
      {p q r : Phase} (polls : Bool) (kinds : List Bool)
      → Moves e polls p q
      → Course e kinds q r
      → Course e (polls ∷ kinds) p r

pub initial : Phase
initial = phase_with false false []
