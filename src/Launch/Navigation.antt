-- ===== src/Launch/Navigation.antt =====
-- navigation_launch.py: the navigation nodes as processes of their own, or as components of one process.
pub mod Routing
use ros2_ws_gp.Common.{Bool, Option, none, some, List, [], ◌∷◌, ◌++◌, map, if◌then◌else◌}
use ros2_ws_gp.Common.Text.{Text, codes}
use ros2_ws_gp.Launch.{
  Condition, given, negated, text, names, Parameters, rewritten, values, Process, Component,
  Started, of_process, of_component,
}

-- The launch arguments.
pub record Settings : Type 0 where
  pub namespace : Text
  pub use_sim_time : Text
  pub params_file : Text
  pub autostart : Text
  pub use_composition : Text
  pub container_name : Text
  pub use_respawn : Text
  pub log_level : Text

-- The values that are declared as defaults; `bringup_dir` is the folder of the package.
unfoldable pub default_settings : Text → Settings
default_settings bringup_dir = record {
  namespace = [];
  use_sim_time = codes "false";
  params_file = bringup_dir ++ codes "/params/nav2_params.yaml";
  autostart = codes "true";
  use_composition = codes "False";
  container_name = codes "nav2_container";
  use_respawn = codes "False";
  log_level = codes "info";
}

unfoldable pub lifecycle_nodes : List Text
lifecycle_nodes =
    codes "controller_server"
    ∷ codes "smoother_server"
    ∷ codes "planner_server"
    ∷ codes "behavior_server"
    ∷ codes "bt_navigator"
    ∷ codes "waypoint_follower"
    ∷ codes "velocity_smoother"
    ∷ []

unfoldable pub remappings : List (Text × Text)
remappings = (codes "/tf", codes "tf") ∷ (codes "/tf_static", codes "tf_static") ∷ []

unfoldable pub configured_params : Settings → Parameters
configured_params s =
    rewritten s.params_file s.namespace
      ((codes "use_sim_time", s.use_sim_time) ∷ (codes "autostart", s.autostart) ∷ [])

abbrev log_arguments : Settings → List Text
log_arguments s = codes "--ros-args" ∷ codes "--log-level" ∷ s.log_level ∷ []

unfoldable pub load_nodes : Settings → List Process
load_nodes s =
    record {
      ros_package = codes "nav2_controller";
      executable = codes "controller_server";
      name = none;
      respawn = some (s.use_respawn, 2);
      arguments = log_arguments s;
      parameters = configured_params s ∷ [];
      remappings = remappings ++ (codes "cmd_vel", codes "cmd_vel_nav") ∷ [];
    }
    ∷ record {
      ros_package = codes "nav2_smoother";
      executable = codes "smoother_server";
      name = some (codes "smoother_server");
      respawn = some (s.use_respawn, 2);
      arguments = log_arguments s;
      parameters = configured_params s ∷ [];
      remappings = remappings;
    }
    ∷ record {
      ros_package = codes "nav2_planner";
      executable = codes "planner_server";
      name = some (codes "planner_server");
      respawn = some (s.use_respawn, 2);
      arguments = log_arguments s;
      parameters = configured_params s ∷ [];
      remappings = remappings;
    }
    ∷ record {
      ros_package = codes "nav2_behaviors";
      executable = codes "behavior_server";
      name = some (codes "behavior_server");
      respawn = some (s.use_respawn, 2);
      arguments = log_arguments s;
      parameters = configured_params s ∷ [];
      remappings = remappings ++ (codes "cmd_vel", codes "cmd_vel_recovery") ∷ [];
    }
    ∷ record {
      ros_package = codes "nav2_bt_navigator";
      executable = codes "bt_navigator";
      name = some (codes "bt_navigator");
      respawn = some (s.use_respawn, 2);
      arguments = log_arguments s;
      parameters = configured_params s ∷ [];
      remappings = remappings;
    }
    ∷ record {
      ros_package = codes "nav2_waypoint_follower";
      executable = codes "waypoint_follower";
      name = some (codes "waypoint_follower");
      respawn = some (s.use_respawn, 2);
      arguments = log_arguments s;
      parameters = configured_params s ∷ [];
      remappings = remappings;
    }
    ∷ record {
      ros_package = codes "nav2_velocity_smoother";
      executable = codes "velocity_smoother";
      name = some (codes "velocity_smoother");
      respawn = some (s.use_respawn, 2);
      arguments = log_arguments s;
      parameters = configured_params s ∷ [];
      remappings =
          remappings
          ++ (codes "cmd_vel", codes "cmd_vel_nav")
            ∷ (codes "cmd_vel_smoothed", codes "cmd_vel_nav_smoothed")
            ∷ [];
    }
    ∷ record {
      ros_package = codes "nav2_lifecycle_manager";
      executable = codes "lifecycle_manager";
      name = some (codes "lifecycle_manager_navigation");
      respawn = none;
      arguments = log_arguments s;
      parameters =
          values ((codes "use_sim_time", text s.use_sim_time) ∷ [])
          ∷ values ((codes "autostart", text s.autostart) ∷ [])
          ∷ values ((codes "node_names", names lifecycle_nodes) ∷ [])
          ∷ [];
      remappings = [];
    }
    ∷ []

-- The components, all in the container `namespace/container_name`.
unfoldable pub load_composable_nodes : Settings → List Component
load_composable_nodes s =
    record {
      ros_package = codes "nav2_controller";
      plugin = codes "nav2_controller::ControllerServer";
      name = codes "controller_server";
      parameters = configured_params s ∷ [];
      remappings = remappings ++ (codes "cmd_vel", codes "cmd_vel_nav") ∷ [];
    }
    ∷ record {
      ros_package = codes "nav2_smoother";
      plugin = codes "nav2_smoother::SmootherServer";
      name = codes "smoother_server";
      parameters = configured_params s ∷ [];
      remappings = remappings;
    }
    ∷ record {
      ros_package = codes "nav2_planner";
      plugin = codes "nav2_planner::PlannerServer";
      name = codes "planner_server";
      parameters = configured_params s ∷ [];
      remappings = remappings;
    }
    ∷ record {
      ros_package = codes "nav2_behaviors";
      plugin = codes "behavior_server::BehaviorServer";
      name = codes "behavior_server";
      parameters = configured_params s ∷ [];
      remappings = remappings ++ (codes "cmd_vel", codes "cmd_vel_recovery") ∷ [];
    }
    ∷ record {
      ros_package = codes "nav2_bt_navigator";
      plugin = codes "nav2_bt_navigator::BtNavigator";
      name = codes "bt_navigator";
      parameters = configured_params s ∷ [];
      remappings = remappings;
    }
    ∷ record {
      ros_package = codes "nav2_waypoint_follower";
      plugin = codes "nav2_waypoint_follower::WaypointFollower";
      name = codes "waypoint_follower";
      parameters = configured_params s ∷ [];
      remappings = remappings;
    }
    ∷ record {
      ros_package = codes "nav2_velocity_smoother";
      plugin = codes "nav2_velocity_smoother::VelocitySmoother";
      name = codes "velocity_smoother";
      parameters = configured_params s ∷ [];
      remappings =
          remappings
          ++ (codes "cmd_vel", codes "cmd_vel_nav")
            ∷ (codes "cmd_vel_smoothed", codes "cmd_vel_nav_smoothed")
            ∷ [];
    }
    ∷ record {
      ros_package = codes "nav2_lifecycle_manager";
      plugin = codes "nav2_lifecycle_manager::LifecycleManager";
      name = codes "lifecycle_manager_navigation";
      parameters =
          values (
            (codes "use_sim_time", text s.use_sim_time)
            ∷ (codes "autostart", text s.autostart)
            ∷ (codes "node_names", names lifecycle_nodes)
            ∷ [])
          ∷ [];
      remappings = [];
    }
    ∷ []

-- The nodes of the description, the two groups in its order, where `holds` tells the conditions.
unfoldable pub started : (Condition → Bool) → Settings → List Started
started holds s =
    (if holds (negated s.use_composition) then map of_process (load_nodes s) else [])
    ++ (if holds (given s.use_composition) then map of_component (load_composable_nodes s) else [])
