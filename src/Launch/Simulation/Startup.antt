-- ===== src/Launch/Simulation/Startup.antt =====
-- The order in which the processes of sim.launch.py start.
use ros2_ws_gp.Common.{Bool, true, false}
use ros2_ws_gp.Launch.Simulation.{
  SimProcess, ackermann_controller, imu_broadcaster, twist_stamper, imu_scale,
  pointcloud_to_laserscan,
}

-- The processes that need the vehicle to publish its state.
abbrev pub needs_state : SimProcess → Bool
needs_state ackermann_controller = true
needs_state imu_broadcaster = true
needs_state twist_stamper = true
needs_state imu_scale = true
needs_state pointcloud_to_laserscan = true
needs_state _ = false
