-- ===== src/Activation.antt =====
-- `activate.py`: the navigation nodes are driven to `active`. The services of the nodes are an argument:
-- `W` is the state of the nodes, and a wait or a call may change it.
pub mod Ready
pub mod Startup
use ros2_ws_gp.Common.{
  ℕ, zero, suc, Bool, true, false, Option, none, some, List, [], ◌∷◌, map, if◌then◌else◌, ◌==◌,
  ◌&&◌,
}

pub data Name : Type 0 where
  controller_server smoother_server planner_server behavior_server : Name
  bt_navigator waypoint_follower velocity_smoother : Name

-- The labels that `WANT` and the tests tell apart.
pub data Label : Type 0 where
  unconfigured inactive active : Label
  other_state : ℕ → Label

pub data Transition : Type 0 where
  configure activate : Transition

-- The two services of each node, as rclpy gives them: whether `wait_for_service` finds the service in
-- time, and the result of the call, `none` where it does not come in time.
pub record Services (W : Type 0) : Type 0 where
  pub state_up : Name → W → Bool × W
  pub get_state : Name → W → Option Label × W
  pub change_up : Name → W → Bool × W
  pub change_state : Name → Transition → W → Option Bool × W

abbrev pub order : List Name
order =
    controller_server ∷ smoother_server ∷ planner_server ∷ behavior_server ∷ bt_navigator
    ∷ waypoint_follower ∷ velocity_smoother ∷ []

-- `WANT.get(st)`
unfoldable pub want : Label → Option Transition
want unconfigured = some configure
want inactive = some activate
want active = none
want (other_state n) = none

abbrev pub code : Name → ℕ
code controller_server = 0
code smoother_server = 1
code planner_server = 2
code behavior_server = 3
code bt_navigator = 4
code waypoint_follower = 5
code velocity_smoother = 6

-- `final.get(name)`, of a dictionary that has at most one entry for a name.
unfoldable pub get : Name → List (Name × Option Label) → Option Label
get name [] = none
get name ((k, st) ∷ final) = if code k == code name then st else get name final

-- `final.get(k) != 'active'`, negated
abbrev pub is_active : Option Label → Bool
is_active (some active) = true
is_active _ = false

-- `bool(f.result() and f.result().success)`
abbrev pub is_success : Option Bool → Bool
is_success none = false
is_success (some success) = success

module _ {W : Type 0} (services : Services W) where
  unfoldable pub state_of : Name → W → Option Label × W
  state_of name w =
      let (up, w') = services.state_up name w in
      if up then services.get_state name w' else (none, w')

  unfoldable pub transition : Name → Transition → W → Bool × W
  transition name tid w =
      let (up, w') = services.change_up name w in
      let (result, w'') = services.change_state name tid w' in
      if up then (is_success result, w'') else (false, w')

  abbrev pub pursue : Name → Option Transition → W → Bool × W
  pursue name none w = (false, w)
  pursue name (some tid) w = (true, (transition name tid w).1)

  -- One round on a node: whether another one follows.
  abbrev pub drive_on : Name → Option Label × W → Bool × W
  drive_on name (none, w) = (false, w)
  drive_on name (some st, w) = if is_active (some st) then (false, w) else pursue name (want st) w

  abbrev pub again : Bool × W → (W → W) → W
  again (true, w) rest = rest w
  again (false, w) rest = w

  -- `for _ in range(3)`
  unfoldable pub attempts : ℕ → Name → W → W
  attempts zero name w = w
  attempts (suc n) name w = again (drive_on name (state_of name w)) (attempts n name)

  unfoldable pub activate_all : List Name → W → W
  activate_all [] w = w
  activate_all (name ∷ names) w = activate_all names (attempts 3 name w)

  -- The final states, each with the state of the nodes at that query.
  unfoldable pub survey : List Name → W → List (Name × Option Label) × W
  survey [] w = ([], w)
  survey (name ∷ names) w =
      let (st, w') = state_of name w in
      let (rest, w'') = survey names w' in ((name, st) ∷ rest, w'')

  -- `not missing`
  abbrev pub is_ready : List (Name × Option Label) → Bool
  is_ready final =
      is_active (get controller_server final)
      && (is_active (get planner_server final) && is_active (get bt_navigator final))

  -- The script: whether it exits with 0, and the nodes after it.
  unfoldable pub main : W → Bool × W
  main w = let (final, w') = survey order (activate_all order w) in (is_ready final, w')
