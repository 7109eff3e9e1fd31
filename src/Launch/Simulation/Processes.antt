-- ===== src/Launch/Simulation/Processes.antt =====
-- The processes of sim.launch.py, with their parameters and remappings.
use ros2_ws_gp.Common.{Bool, Option, none, some, [], ◌∷◌, ◌++◌, if◌then◌else◌}
use ros2_ws_gp.Common.Text.{Text, codes}
use ros2_ws_gp.Launch.{Condition, Value, text, command, values, file, Process}
use ros2_ws_gp.Launch.Simulation.{
  SimProcess, robot_state_publisher, twist_mux, emergency_stop_server, ekf, gazebo, rviz,
  spawn_entity, joint_state_broadcaster, ackermann_controller, imu_broadcaster, twist_stamper,
  imu_scale, pointcloud_to_laserscan, SimSettings, Folders, use_broadcaster_imu,
}

unfoldable pub robot_description : Folders → SimSettings → Value
robot_description dirs s = command (
    codes "python3 "
    ∷ (dirs.simulation ++ codes "/tools/urdf_for_gazebo.py")
    ∷ codes " "
    ∷ (dirs.description ++ codes "/urdf/robot.xacro")
    ∷ codes " hardware:=false"
    ∷ codes " sim_lidar:="
    ∷ s.sim_lidar
    ∷ codes " sim_camera:="
    ∷ s.sim_camera
    ∷ [])

unfoldable pub spawner : Text → Option Process
spawner name = some (record {
  ros_package = codes "controller_manager";
  executable = codes "spawner";
  name = none;
  respawn = none;
  arguments =
      name
      ∷ codes "--controller-manager-timeout"
      ∷ codes "120"
      ∷ codes "--switch-timeout"
      ∷ codes "120"
      ∷ [];
  parameters = [];
  remappings = [];
})

-- What each process is, where `holds` tells the conditions.
unfoldable pub sim_process :
    Folders → (Condition → Bool) → SimSettings → SimProcess → Option Process
sim_process dirs holds s robot_state_publisher = some (record {
  ros_package = codes "robot_state_publisher";
  executable = codes "robot_state_publisher";
  name = none;
  respawn = none;
  arguments = [];
  parameters =
      values (
        (codes "robot_description", robot_description dirs s)
        ∷ (codes "use_sim_time", text (codes "True"))
        ∷ [])
      ∷ [];
  remappings = [];
})
sim_process dirs holds s twist_mux = some (record {
  ros_package = codes "twist_mux";
  executable = codes "twist_mux";
  name = none;
  respawn = none;
  arguments = [];
  parameters =
      file (dirs.bringup ++ codes "/config/twist_mux_topics.yaml")
      ∷ file (dirs.bringup ++ codes "/config/twist_mux_locks.yaml")
      ∷ values ((codes "use_sim_time", text (codes "True")) ∷ [])
      ∷ [];
  remappings = (codes "/cmd_vel_out", codes "/cmd_vel") ∷ [];
})
sim_process dirs holds s emergency_stop_server = some (record {
  ros_package = codes "ackermann_bringup";
  executable = codes "emergency_stop_server";
  name = none;
  respawn = none;
  arguments = [];
  parameters =
      values (
        (codes "use_sim_time", text (codes "True"))
        ∷ (codes "restore_goal", text (codes "True"))
        ∷ (codes "goal_restore_delay_sec", text (codes "2.0"))
        ∷ [])
      ∷ [];
  remappings = [];
})
sim_process dirs holds s ekf = some (record {
  ros_package = codes "robot_localization";
  executable = codes "ekf_node";
  name = some (codes "ekf_filter_node");
  respawn = none;
  arguments = [];
  parameters =
      file (dirs.bringup ++ codes "/config/ekf.yaml")
      ∷ values ((codes "use_sim_time", text (codes "True")) ∷ [])
      ∷ [];
  remappings = (codes "/odometry/filtered", codes "/odom") ∷ [];
})
sim_process dirs holds s gazebo = none
sim_process dirs holds s rviz = some (record {
  ros_package = codes "rviz2";
  executable = codes "rviz2";
  name = some (codes "rviz2");
  respawn = none;
  arguments = codes "-d" ∷ (dirs.simulation ++ codes "/config/display_sim.rviz") ∷ [];
  parameters = values ((codes "use_sim_time", text (codes "True")) ∷ []) ∷ [];
  remappings = [];
})
sim_process dirs holds s spawn_entity = some (record {
  ros_package = codes "gazebo_ros";
  executable = codes "spawn_entity.py";
  name = none;
  respawn = none;
  arguments =
      codes "-topic"
      ∷ codes "robot_description"
      ∷ codes "-entity"
      ∷ codes "ackermann"
      ∷ codes "-x"
      ∷ s.x
      ∷ codes "-y"
      ∷ s.y
      ∷ codes "-z"
      ∷ codes "0.05"
      ∷ codes "-Y"
      ∷ s.yaw
      ∷ [];
  parameters = [];
  remappings = [];
})
sim_process dirs holds s joint_state_broadcaster = spawner (codes "joint_state_broadcaster")
sim_process dirs holds s ackermann_controller = spawner (codes "ackermann_controller")
sim_process dirs holds s imu_broadcaster = spawner (codes "imu_broadcaster")
sim_process dirs holds s twist_stamper = some (record {
  ros_package = codes "ackermann_bringup";
  executable = codes "twist_stamper.py";
  name = none;
  respawn = none;
  arguments = [];
  parameters =
      values (
        (codes "use_sim_time", text (codes "True"))
        ∷ (codes "frame_id", text (codes "base_footprint"))
        ∷ [])
      ∷ [];
  remappings = (codes "/cmd_vel_stamped", codes "/ackermann_controller/reference") ∷ [];
})
sim_process dirs holds s imu_scale = some (record {
  ros_package = codes "ackermann_bringup";
  executable = codes "imu_scale.py";
  name = none;
  respawn = none;
  arguments = [];
  parameters =
      values ((codes "use_sim_time", text (codes "True")) ∷ (codes "k", text (codes "1.0")) ∷ [])
      ∷ [];
  remappings =
      (
        codes "/imu_broadcaster/imu",
        if holds (use_broadcaster_imu s) then codes "/imu_broadcaster/imu" else codes "/imu/data",
      )
      ∷ [];
})
sim_process dirs holds s pointcloud_to_laserscan = some (record {
  ros_package = codes "pointcloud_to_laserscan";
  executable = codes "pointcloud_to_laserscan_node";
  name = some (codes "pointcloud_to_laserscan");
  respawn = none;
  arguments = [];
  parameters =
      values (
        (codes "use_sim_time", text (codes "True"))
        ∷ (codes "target_frame", text (codes "livox"))
        ∷ (codes "transform_tolerance", text (codes "0.01"))
        ∷ (codes "min_height", text (codes "-0.15"))
        ∷ (codes "max_height", text (codes "0.30"))
        ∷ (codes "angle_min", text (codes "-3.14159"))
        ∷ (codes "angle_max", text (codes "3.14159"))
        ∷ (codes "angle_increment", text (codes "0.00436"))
        ∷ (codes "scan_time", text (codes "0.1"))
        ∷ (codes "range_min", text (codes "0.28"))
        ∷ (codes "range_max", text (codes "40.0"))
        ∷ (codes "use_inf", text (codes "True"))
        ∷ (codes "inf_epsilon", text (codes "1.0"))
        ∷ [])
      ∷ [];
  remappings = (codes "cloud_in", codes "/mid360_PointCloud2") ∷ (codes "scan", codes "/scan") ∷ [];
})
