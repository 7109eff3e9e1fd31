-- ===== src/Launch/Navigation/Routing.antt =====
-- The nodes that navigation_launch.py starts in either mode, and where their velocities go.
use ros2_ws_gp.Common.{
  ◌≡◌, refl, ap, ◌∙◌, inl, inr, Bool, true, false, ◌⊎◌, List, [], ◌∷◌, ◌++◌, map, append-nil,
}
use ros2_ws_gp.Common.Text.{Text, codes, text_beq}
use ros2_ws_gp.Activation.{
  Name, controller_server, smoother_server, planner_server, behavior_server, bt_navigator,
  waypoint_follower, velocity_smoother,
}
use ros2_ws_gp.Launch.{Condition, given, negated, Started, of_process, of_component, resolve}
use ros2_ws_gp.Launch.Navigation.{Settings, remappings, load_nodes, load_composable_nodes, started}

-- What the launch system makes of the two values of a flag: `IfCondition` of the flag, and of the Python
-- expression `not` before it.
pub record IsEvaluated (holds : Condition → Bool) : Type 0 where
  pub given_true : holds (given (codes "True")) ≡ true
  pub given_false : holds (given (codes "False")) ≡ false
  pub negated_true : holds (negated (codes "True")) ≡ false
  pub negated_false : holds (negated (codes "False")) ≡ true

-- The two values that both conditions can read.
abbrev pub IsFlag : Text → Type 0
IsFlag t = (t ≡ codes "True") ⊎ (t ≡ codes "False")

modes_agree :
    (s : Settings) → map of_process (load_nodes s) ≡ map of_component (load_composable_nodes s)
unfolding of_process of_component load_nodes load_composable_nodes
modes_agree s = refl

-- Whether the nodes are composed or not: the same nodes are started, each once, with the same names,
-- parameters and topics.
pub started-same :
    (holds : Condition → Bool) (s : Settings)
    → IsEvaluated holds
    → IsFlag s.use_composition
    → started holds s ≡ map of_component (load_composable_nodes s)
unfolding started
started-same holds s e (inl composed) =
    rw
      (
        ap (λ t. holds (given t)) composed ∙ e.given_true,
        ap (λ t. holds (negated t)) composed ∙ e.negated_true,
      )
      refl
started-same holds s e (inr apart) =
    rw
      (
        ap (λ t. holds (given t)) apart ∙ e.given_false,
        ap (λ t. holds (negated t)) apart ∙ e.negated_false,
      )
      (append-nil _ ∙ modes_agree s)

abbrev pub name_text : Name → Text
name_text controller_server = codes "controller_server"
name_text smoother_server = codes "smoother_server"
name_text planner_server = codes "planner_server"
name_text behavior_server = codes "behavior_server"
name_text bt_navigator = codes "bt_navigator"
name_text waypoint_follower = codes "waypoint_follower"
name_text velocity_smoother = codes "velocity_smoother"

-- The velocity topics that the nodes publish, by their documentation.
pub record PublishesVelocity (publishes : Text → List Text) : Type 0 where
  pub by_controller : publishes (name_text controller_server) ≡ codes "cmd_vel" ∷ []
  pub by_behaviors : publishes (name_text behavior_server) ≡ codes "cmd_vel" ∷ []
  pub by_smoother : publishes (name_text velocity_smoother) ≡ codes "cmd_vel_smoothed" ∷ []
  pub by_path_smoother : publishes (name_text smoother_server) ≡ []
  pub by_planner : publishes (name_text planner_server) ≡ []
  pub by_navigator : publishes (name_text bt_navigator) ≡ []
  pub by_follower : publishes (name_text waypoint_follower) ≡ []
  pub by_manager : publishes (codes "lifecycle_manager_navigation") ≡ []

-- The topics that the started nodes publish velocities on.
unfoldable pub velocity_topics : (Text → List Text) → List Started → List Text
velocity_topics publishes [] = []
velocity_topics publishes (n ∷ ns) =
    map (resolve n.remappings) (publishes n.name) ++ velocity_topics publishes ns

composed_topics :
    (publishes : Text → List Text) (s : Settings)
    → PublishesVelocity publishes
    → velocity_topics publishes (map of_component (load_composable_nodes s))
      ≡ codes "cmd_vel_nav" ∷ codes "cmd_vel_recovery" ∷ codes "cmd_vel_nav_smoothed" ∷ []
unfolding velocity_topics of_component load_composable_nodes remappings resolve text_beq
composed_topics publishes s p =
    rw
      (
        p.by_controller, p.by_behaviors, p.by_smoother, p.by_path_smoother, p.by_planner,
        p.by_navigator, p.by_follower, p.by_manager,
      )
      refl

-- With `use_composition` at `True` or at `False`, and whatever the other arguments are: what the
-- controller, the recoveries and the velocity smoother publish goes to cmd_vel_nav, cmd_vel_recovery and
-- cmd_vel_nav_smoothed, and nothing goes to cmd_vel itself.
pub started-velocity_topics :
    (holds : Condition → Bool) (publishes : Text → List Text) (s : Settings)
    → IsEvaluated holds
    → IsFlag s.use_composition
    → PublishesVelocity publishes
    → velocity_topics publishes (started holds s)
      ≡ codes "cmd_vel_nav" ∷ codes "cmd_vel_recovery" ∷ codes "cmd_vel_nav_smoothed" ∷ []
started-velocity_topics holds publishes s e flag p =
    ap (velocity_topics publishes) (started-same holds s e flag) ∙ composed_topics publishes s p
