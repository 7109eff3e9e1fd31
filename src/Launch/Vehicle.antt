-- ===== src/Launch/Vehicle.antt =====
-- robot.launch.py: the processes of the vehicle.
use ros2_ws_gp.Common.{◌≡◌, Bool, true, false, Option, none, some, List, [], ◌∷◌, ◌++◌}
use ros2_ws_gp.Common.Text.{Text, codes}
use ros2_ws_gp.Launch.{Value, text, command, values, file, Process}
use ros2_ws_gp.Launch.Order.{
  Cause, at_once, after_seconds, on_start, starts, History, Occurs, Obeys, started-Happened,
}
use ros2_ws_gp.Launch.Simulation.{Folders}

-- What the description starts. `joint_state_broadcaster` and the two after it are the spawners of the
-- controllers of these names.
pub data RobotProcess : Type 0 where
  robot_state_publisher twist_mux emergency_stop_server road_classification ekf : RobotProcess
  controller_manager joint_state_broadcaster ackermann_controller imu_broadcaster : RobotProcess
  twist_stamper imu_scale : RobotProcess

-- The launch arguments.
pub record RobotSettings : Type 0 where
  pub hardware : Text
  pub can_interface : Text
  pub enc_counts_per_rev : Text

-- The defaults; the last two are read from hardware.yaml.
unfoldable pub default_robot_settings : Text → Text → RobotSettings
default_robot_settings can_interface enc_counts_per_rev = record {
  hardware = codes "true";
  can_interface = can_interface;
  enc_counts_per_rev = enc_counts_per_rev;
}

unfoldable pub ackermann_description : Folders → RobotSettings → Value
ackermann_description dirs s = command (
    codes "xacro "
    ∷ (dirs.description ++ codes "/urdf/robot.xacro")
    ∷ codes " hardware:="
    ∷ s.hardware
    ∷ codes " can_interface:="
    ∷ s.can_interface
    ∷ codes " enc_counts_per_rev:="
    ∷ s.enc_counts_per_rev
    ∷ [])

unfoldable pub robot_controllers : Folders → Text
robot_controllers dirs = dirs.bringup ++ codes "/config/controllers.yaml"

unfoldable pub robot_spawner : List Text → Option Process
robot_spawner arguments = some (record {
  ros_package = codes "controller_manager";
  executable = codes "spawner";
  name = none;
  respawn = none;
  arguments = arguments;
  parameters = [];
  remappings = [];
})

unfoldable pub robot_process : Folders → RobotSettings → RobotProcess → Option Process
robot_process dirs s robot_state_publisher = some (record {
  ros_package = codes "robot_state_publisher";
  executable = codes "robot_state_publisher";
  name = none;
  respawn = none;
  arguments = [];
  parameters =
      values (
        (codes "robot_description", ackermann_description dirs s)
        ∷ (codes "use_sim_time", text (codes "False"))
        ∷ [])
      ∷ [];
  remappings = [];
})
robot_process dirs s twist_mux = some (record {
  ros_package = codes "twist_mux";
  executable = codes "twist_mux";
  name = none;
  respawn = none;
  arguments = [];
  parameters =
      file (dirs.bringup ++ codes "/config/twist_mux_topics.yaml")
      ∷ file (dirs.bringup ++ codes "/config/twist_mux_locks.yaml")
      ∷ values ((codes "use_sim_time", text (codes "False")) ∷ [])
      ∷ [];
  remappings = (codes "/cmd_vel_out", codes "/cmd_vel") ∷ [];
})
robot_process dirs s emergency_stop_server = some (record {
  ros_package = codes "ackermann_bringup";
  executable = codes "emergency_stop_server";
  name = none;
  respawn = none;
  arguments = [];
  parameters =
      values (
        (codes "restore_goal", text (codes "True"))
        ∷ (codes "goal_restore_delay_sec", text (codes "2.0"))
        ∷ [])
      ∷ [];
  remappings = [];
})
robot_process dirs s road_classification = some (record {
  ros_package = codes "ackermann_bringup";
  executable = codes "road_classification_node";
  name = none;
  respawn = none;
  arguments = [];
  parameters =
      file (dirs.bringup ++ codes "/config/road_classification.yaml")
      ∷ values ((codes "can_interface", text s.can_interface) ∷ [])
      ∷ [];
  remappings = [];
})
robot_process dirs s ekf = some (record {
  ros_package = codes "robot_localization";
  executable = codes "ekf_node";
  name = some (codes "ekf_filter_node");
  respawn = none;
  arguments = [];
  parameters = file (dirs.bringup ++ codes "/config/ekf.yaml") ∷ [];
  remappings = (codes "/odometry/filtered", codes "/odom") ∷ [];
})
robot_process dirs s controller_manager = some (record {
  ros_package = codes "controller_manager";
  executable = codes "ros2_control_node";
  name = none;
  respawn = none;
  arguments = [];
  parameters =
      values ((codes "robot_description", ackermann_description dirs s) ∷ [])
      ∷ file (robot_controllers dirs)
      ∷ [];
  remappings = (codes "/ackermann_controller/reference", codes "/cmd_vel_stamped") ∷ [];
})
robot_process dirs s joint_state_broadcaster = robot_spawner (codes "joint_state_broadcaster" ∷ [])
robot_process dirs s ackermann_controller =
    robot_spawner
      (codes "ackermann_controller" ∷ codes "--param-file" ∷ robot_controllers dirs ∷ [])
robot_process dirs s imu_broadcaster =
    robot_spawner (codes "imu_broadcaster" ∷ codes "--param-file" ∷ robot_controllers dirs ∷ [])
robot_process dirs s twist_stamper = some (record {
  ros_package = codes "ackermann_bringup";
  executable = codes "twist_stamper.py";
  name = none;
  respawn = none;
  arguments = [];
  parameters =
      values (
        (codes "use_sim_time", text (codes "False"))
        ∷ (codes "frame_id", text (codes "base_footprint"))
        ∷ [])
      ∷ [];
  remappings = [];
})
robot_process dirs s imu_scale = some (record {
  ros_package = codes "ackermann_bringup";
  executable = codes "imu_scale.py";
  name = none;
  respawn = none;
  arguments = [];
  parameters = values ((codes "use_sim_time", text (codes "False")) ∷ []) ∷ [];
  remappings = [];
})

-- When each process starts, by the timer and the event handlers at the end of the description.
unfoldable pub robot_cause : RobotProcess → Cause RobotProcess
robot_cause robot_state_publisher = at_once
robot_cause twist_mux = at_once
robot_cause emergency_stop_server = at_once
robot_cause road_classification = at_once
robot_cause ekf = at_once
robot_cause controller_manager = after_seconds 3
robot_cause joint_state_broadcaster = on_start controller_manager
robot_cause ackermann_controller = on_start controller_manager
robot_cause imu_broadcaster = on_start controller_manager
robot_cause twist_stamper = on_start controller_manager
robot_cause imu_scale = on_start controller_manager

-- The processes that need the controllers: the spawners, the stamper of the commands and the IMU node.
abbrev pub needs_manager : RobotProcess → Bool
needs_manager joint_state_broadcaster = true
needs_manager ackermann_controller = true
needs_manager imu_broadcaster = true
needs_manager twist_stamper = true
needs_manager imu_scale = true
needs_manager _ = false

-- However the launch system goes on, the spawners, the stamper and the IMU node have not started before
-- the controller manager has.
pub robot-startup :
    (allowed : RobotProcess → Bool) (Run : History RobotProcess → Type 0) (p : RobotProcess)
    (t : History RobotProcess)
    → Obeys robot_cause allowed Run
    → needs_manager p ≡ true
    → Run t
    → Occurs (starts p) t
    → Occurs (starts controller_manager) t
unfolding robot_cause
robot-startup allowed Run joint_state_broadcaster t o w run h =
    started-Happened o joint_state_broadcaster t run h
robot-startup allowed Run ackermann_controller t o w run h =
    started-Happened o ackermann_controller t run h
robot-startup allowed Run imu_broadcaster t o w run h = started-Happened o imu_broadcaster t run h
robot-startup allowed Run twist_stamper t o w run h = started-Happened o twist_stamper t run h
robot-startup allowed Run imu_scale t o w run h = started-Happened o imu_scale t run h
robot-startup allowed Run robot_state_publisher t o w run h = cc
robot-startup allowed Run twist_mux t o w run h = cc
robot-startup allowed Run emergency_stop_server t o w run h = cc
robot-startup allowed Run road_classification t o w run h = cc
robot-startup allowed Run ekf t o w run h = cc
robot-startup allowed Run controller_manager t o w run h = cc
