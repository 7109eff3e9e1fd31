-- ===== src/Activation/Ready.antt =====
-- When the script reports that the navigation is up, and when it leaves the nodes alone.
use ros2_ws_gp.Common.{◌≡◌, refl, ap, ◌∙◌, true, Option, none, some, List, [], ◌∷◌, arith, ◌&&◌}
use ros2_ws_gp.Activation.{
  Name, controller_server, smoother_server, planner_server, behavior_server, bt_navigator,
  waypoint_follower, velocity_smoother, Label, active, unconfigured, inactive, other_state,
  Services, state_of, order, is_active, get, attempts, activate_all, survey, main,
}

is_active-active : (st : Option Label) → is_active st ≡ true → st ≡ some active
is_active-active none e = ground arith
is_active-active (some active) e = refl
is_active-active (some unconfigured) e = ground arith
is_active-active (some inactive) e = ground arith
is_active-active (some (other_state n)) e = ground arith

module _ {W : Type 0} (services : Services W) where
  -- The nodes after the queries of a list of names, in their order.
  after : List Name → W → W
  after names w = (survey services names w).1

  abbrev answer : List Name → Name → W → Option Label
  answer names name w = (state_of services name (after names w)).0

  -- The script exits with 0 exactly when, once every node was driven, the controller, the planner and
  -- the navigator each answered the last query with `active`.
  pub main-ready :
      (w : W)
      → (main services w).0 ≡ (
          let w0 = activate_all services order w in
          is_active (state_of services controller_server w0).0
          && (is_active
                (state_of services planner_server
                  (survey services (controller_server ∷ smoother_server ∷ []) w0).1).0
              && is_active
                  (state_of services bt_navigator
                    (survey services
                      (controller_server ∷ smoother_server ∷ planner_server ∷ behavior_server ∷ [])
                      w0).1).0))
  unfolding main survey get
  main-ready w = refl

  attempts-active :
      (name : Name) (w : W)
      → state_of services name w ≡ (some active, w)
      → attempts services 3 name w ≡ w
  unfolding attempts
  attempts-active name w e = rw e refl

  activate_all-active :
      (names : List Name) (w : W)
      → ((name : Name) → state_of services name w ≡ (some active, w))
      → activate_all services names w ≡ w
  unfolding activate_all
  activate_all-active [] w e = refl
  activate_all-active (name ∷ names) w e =
      ap (activate_all services names) (attempts-active name w (e name))
      ∙ activate_all-active names w e

  -- On nodes that are all active the script issues no transition, and exits with 0.
  pub main-active :
      (w : W)
      → ((name : Name) → state_of services name w ≡ (some active, w))
      → main services w ≡ (true, w)
  unfolding main survey get
  main-active w e =
      rw
        (
          activate_all-active order w e,
          e controller_server,
          e smoother_server,
          e planner_server,
          e behavior_server,
          e bt_navigator,
          e waypoint_follower,
          e velocity_smoother,
        )
        refl
