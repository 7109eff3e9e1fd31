-- ===== src/Launch/Simulation.antt =====
-- sim.launch.py: the simulated vehicle, whose processes start one after the other.
pub mod Startup
pub mod Processes
use ros2_ws_gp.Common.{Bool, true, Option, none, some, List, [], ◌∷◌, ◌++◌, if◌then◌else◌}
use ros2_ws_gp.Common.Text.{Text, codes}
use ros2_ws_gp.Launch.{
  Condition, given, equals, Value, text, command, Parameters, values, file, Process,
}
use ros2_ws_gp.Launch.Order.{Cause, at_once, after_seconds, on_exit}

-- What the description starts; `gazebo` is the launch file of another package that it includes, and the
-- three after `spawn_entity` are the spawners of the controllers of these names.
pub data SimProcess : Type 0 where
  robot_state_publisher twist_mux emergency_stop_server ekf gazebo rviz : SimProcess
  spawn_entity joint_state_broadcaster ackermann_controller imu_broadcaster : SimProcess
  twist_stamper imu_scale pointcloud_to_laserscan : SimProcess

-- The launch arguments.
pub record SimSettings : Type 0 where
  pub world : Text
  pub gui : Text
  pub x : Text
  pub y : Text
  pub yaw : Text
  pub sim_lidar : Text
  pub sim_camera : Text
  pub imu_source : Text
  pub rviz : Text

-- The folders of the packages.
pub record Folders : Type 0 where
  pub bringup : Text
  pub description : Text
  pub simulation : Text

unfoldable pub default_sim_settings : Folders → SimSettings
default_sim_settings dirs = record {
  world = dirs.simulation ++ codes "/worlds/arena.world";
  gui = codes "true";
  x = codes "0.0";
  y = codes "0.0";
  yaw = codes "0.0";
  sim_lidar = codes "2d";
  sim_camera = codes "true";
  imu_source = codes "broadcaster";
  rviz = codes "true";
}

unfoldable pub use_livox : SimSettings → Condition
use_livox s = equals s.sim_lidar (codes "livox")

unfoldable pub use_broadcaster_imu : SimSettings → Condition
use_broadcaster_imu s = equals s.imu_source (codes "broadcaster")

-- When each process starts, by the timer and the event handlers at the end of the description.
unfoldable pub sim_cause : SimProcess → Cause SimProcess
sim_cause robot_state_publisher = at_once
sim_cause twist_mux = at_once
sim_cause emergency_stop_server = at_once
sim_cause ekf = at_once
sim_cause gazebo = at_once
sim_cause rviz = at_once
sim_cause spawn_entity = after_seconds 3
sim_cause joint_state_broadcaster = on_exit spawn_entity
sim_cause ackermann_controller = on_exit joint_state_broadcaster
sim_cause imu_broadcaster = on_exit joint_state_broadcaster
sim_cause twist_stamper = on_exit joint_state_broadcaster
sim_cause imu_scale = on_exit joint_state_broadcaster
sim_cause pointcloud_to_laserscan = on_exit joint_state_broadcaster

unfoldable pub sim_condition : SimSettings → SimProcess → Option Condition
sim_condition s rviz = some (given s.rviz)
sim_condition s imu_broadcaster = some (use_broadcaster_imu s)
sim_condition s pointcloud_to_laserscan = some (use_livox s)
sim_condition s _ = none

unfoldable pub sim_allowed : (Condition → Bool) → SimSettings → SimProcess → Bool
sim_allowed holds s p = elim (sim_condition s p) [ none ↦ true | some condition ↦ holds condition ]
