-- ===== src/Coordinator/Contract/Held.antt =====
-- For whom the vehicle is held, by the abstract machine.
use ros2_ws_gp.Common.{
  ◌≡◌, refl, ◌≢◌, Bool, true, false, List, any, Option, ◌⊎◌, inl, inr, Bool-cases,
}
use ros2_ws_gp.Common.Dict.{contains}
use ros2_ws_gp.Secoc.Bytes.{Bytes}
use ros2_ws_gp.Secoc.Store.{Files}
use ros2_ws_gp.Coordinator.State.{Ecu, jetson, ecu_eq, Config, Spool, Env, node_of, ◌>>=◌}
use ros2_ws_gp.Coordinator.Node.{Event, spin, init}
use ros2_ws_gp.Coordinator.Contract.{
  Phase, verdicts_to, phase, Move, Moves, asks, withdraws, answers, grants, releases, holds_itself,
  rests, then_moves, Course, stops, calls, initial,
}
use ros2_ws_gp.Coordinator.Contract.Refines.{run-refines}

-- An approval went out, if the vehicle is held.
abbrev IsEarned : Phase → Type 0
IsEarned p = p.held ≡ true → any (λ approved. approved) p.verdicts ≡ true

module _ {e : Ecu} (other : e ≢ jetson) where
  Move-IsEarned : {polls : Bool} {p q : Phase} → Move e polls p q → IsEarned p → IsEarned q
  Move-IsEarned (asks held vs) h = h
  Move-IsEarned (withdraws polls asked held vs) h = h
  Move-IsEarned (answers true held vs) h = λ _. refl
  Move-IsEarned (answers false held vs) h = h
  Move-IsEarned (grants asked held vs) h = λ _. refl
  Move-IsEarned (releases polls asked held vs) h = λ no_longer. cc
  Move-IsEarned (holds_itself polls asked held vs own) h = absurd (other own)

  Moves-IsEarned : {polls : Bool} {p q : Phase} → Moves e polls p q → IsEarned p → IsEarned q
  Moves-IsEarned (rests p) h = h
  Moves-IsEarned (then_moves path m) h = Move-IsEarned m (Moves-IsEarned path h)

  Course-IsEarned : {kinds : List Bool} {p q : Phase} → Course e kinds p q → IsEarned p → IsEarned q
  Course-IsEarned (stops kinds p) h = h
  Course-IsEarned (calls polls kinds moves path) h = Course-IsEarned path (Moves-IsEarned moves h)

initial-IsEarned : IsEarned initial
unfolding initial
initial-IsEarned no_longer = cc

decide :
    (p : Phase) → IsEarned p → (p.held ≡ false) ⊎ (any (λ approved. approved) p.verdicts ≡ true)
decide p h = elim (Bool-cases p.held) [ inl holds ↦ inr (h holds) | inr free ↦ inl free ]

-- At any time after the start, for each ECU other than the coordinator's own computer: the vehicle is not
-- held for it, or a frame went out to it whose verdict byte approves.
pub run-held :
    (aes_cmac : Bytes → Bytes → Option Bytes) (e : Ecu) (env : Env) (config : Config)
    (files : Files) (spool : Spool) (flag : Bool) (events : List (Env × Event))
    → e ≢ jetson
    → (contains e (node_of (init env config files spool flag >>= spin aes_cmac events)).active_ecus
        ≡ false)
      ⊎ (any
            (λ approved. approved)
            (verdicts_to e
              (node_of (init env config files spool flag >>= spin aes_cmac events)).sent)
          ≡ true)
run-held aes_cmac e env config files spool flag events other =
    decide (phase e (node_of (init env config files spool flag >>= spin aes_cmac events))) (
      Course-IsEarned other (run-refines aes_cmac e env config files spool flag events)
        initial-IsEarned)
