-- ===== src/Override.antt =====
-- ackermann_bringup/src/xbox_override.py: the manual override that publishes /cmd_vel_teleop.
pub mod Floats
pub mod PadMap
pub mod Drive
pub mod Tick
pub mod Safety
pub mod Arming
pub mod Tail
pub mod Bounds
pub mod Evdev
pub mod Prepare
