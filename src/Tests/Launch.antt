-- ===== src/Tests/Launch.antt =====
-- The launch files with their defaults.
use ros2_ws_gp.Common.{inr, ◌≡◌, refl, Bool, true, not, List, [], ◌∷◌, if◌then◌else◌}
use ros2_ws_gp.Common.Text.{Text, codes, text_beq}
use ros2_ws_gp.Launch.{Condition, given, negated, equals}
use ros2_ws_gp.Launch.Order.{Cause, starts, exits, History, Occurs, Happened}
use ros2_ws_gp.Launch.Simulation.{
  Folders, SimProcess, imu_scale, joint_state_broadcaster, spawn_entity,
}
use ros2_ws_gp.Launch.Navigation.{default_settings, started}
use ros2_ws_gp.Launch.Navigation.Routing.{
  IsEvaluated, IsFlag, PublishesVelocity, velocity_topics, started-velocity_topics,
}

abbrev is_true : Text → Bool
is_true t = text_beq t (codes "True")

abbrev holds : Condition → Bool
holds (given argument) = is_true argument
holds (negated argument) = not (is_true argument)
holds (equals argument value) = text_beq argument value

holds-IsEvaluated : IsEvaluated holds
unfolding text_beq
holds-IsEvaluated = record {
  given_true = refl;
  given_false = refl;
  negated_true = refl;
  negated_false = refl;
}

abbrev publishes : Text → List Text
publishes name =
    if text_beq name (codes "controller_server")
    then codes "cmd_vel" ∷ []
    else if text_beq name (codes "behavior_server")
    then codes "cmd_vel" ∷ []
    else if text_beq name (codes "velocity_smoother")
    then codes "cmd_vel_smoothed" ∷ []
    else []

publishes-PublishesVelocity : PublishesVelocity publishes
unfolding text_beq
publishes-PublishesVelocity = record {
  by_controller = refl;
  by_behaviors = refl;
  by_smoother = refl;
  by_path_smoother = refl;
  by_planner = refl;
  by_navigator = refl;
  by_follower = refl;
  by_manager = refl;
}

composed_or_not : IsFlag (default_settings (codes "/opt/bringup")).use_composition
unfolding default_settings
composed_or_not = inr refl

started-velocity_topics_example :
    velocity_topics publishes (started holds (default_settings (codes "/opt/bringup")))
    ≡ codes "cmd_vel_nav" ∷ codes "cmd_vel_recovery" ∷ codes "cmd_vel_nav_smoothed" ∷ []
started-velocity_topics_example =
    started-velocity_topics holds publishes (default_settings (codes "/opt/bringup"))
      holds-IsEvaluated composed_or_not publishes-PublishesVelocity

-- A launch system that starts and ends processes whenever it may.
Lawful : {K : Type 0} → (K → Cause K) → (K → Bool) → History K → Type 0
Lawful cause_of allowed [] = Unit
Lawful cause_of allowed (starts k ∷ t) =
    Happened (cause_of k) t × (allowed k ≡ true) × Lawful cause_of allowed t
Lawful cause_of allowed (exits k ∷ t) = Occurs (starts k) t × Lawful cause_of allowed t

abbrev sim_folders : Folders
sim_folders = record {
  bringup = codes "/opt/bringup";
  description = codes "/opt/description";
  simulation = codes "/opt/simulation";
}

abbrev sim_history : History SimProcess
sim_history =
    starts imu_scale
    ∷ exits joint_state_broadcaster
    ∷ starts joint_state_broadcaster
    ∷ exits spawn_entity
    ∷ starts spawn_entity
    ∷ []
