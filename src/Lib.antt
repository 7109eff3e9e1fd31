-- ===== src/Lib.antt =====
-- Verification library of the ROS 2 workspace of the vehicle: the Python nodes that decide whether it
-- may be updated, whether it may move, and what its sensors say.
--
-- Parts and files (paths from the root of the repository):
-- * src/update_coordinator/update_coordinator/secoc_utils.py is Secoc. Secoc/Bytes packs integers as
--   `struct` does, Secoc/Store is `FvStore` on a directory of text files, Secoc/Codec is `secoc_mac`,
--   `secoc_build` and `secoc_verify`, Secoc/Key is `load_key`, Secoc/Can is the filter of `can_open` and
--   the frames of `can_send` and `can_recv`. Codec/Freshness, Codec/History and Codec/RoundTrip hold the
--   proofs about the counters.
-- * src/update_coordinator/update_coordinator/node.py is Coordinator. State has the fields of
--   `UpdateCoordinator` as a record; Spool is the folders of offers, verdicts and notices; Lock is
--   `_update_lock_state` and the calls of the emergency stop; Approval is `_begin_approval` to
--   `_poll_approvals`; Handler is `_handle_can`; Node has the services, `__init__`, `destroy_node` and
--   the executor. A callback is a function from the node to an outcome: it returned, or it raised with
--   what it had done until then, and `spin` stops at the first that raises, as `main` does. The proofs
--   stand in Invariant, Polling, Request, Guard, Sweep and Stranded; Wire has what a requester reads in
--   a verdict frame. Contract is an abstract machine for the approval of one ECU, and
--   Contract/Refines shows that the coordinator keeps to it; Counters is about the counters of the verdict frames over a run; Kept carries a property
--   of the node through all callbacks, for Invariant, Contract and Counters.
-- * src/ackermann_bringup/src/xbox_override.py is Override: PadMap is `resolve_pad_map`, Drive is the
--   arithmetic of `trigger` and `tick`, Tick is the state `st` and its transitions, Evdev is the reader
--   `pump`, Prepare is the start of `main`. Safety, Arming, Tail, Bounds and Prepare/Guards hold the
--   proofs; Arming and Tail are about runs of messages and ticks.
-- * src/ackermann_bringup/src/camera_compressor.py is Camera, imu_scale.py beside it is Imu,
--   activate.py is Activation and twist_stamper.py is Stamper.
-- * src/ackermann_simulation/tools/nav_probe.py is Probe (`split_at_cusps`, `path_metrics`,
--   and Probe/Steering, what the callbacks collect; Probe/Goal is `run_goal` with its loop and the
--   numbers of its summary, Probe/Course is `reset` and `main`), make_arena.py beside it is Arena (the
--   obstacles and `write_map`), and clean_map_from_bag.py is MapCleaner (from the
--   transforms and scans to the pixels of the image). mk_rpp.py and mkparams.py are Params/Swap and
--   Params/Overrides, urdf_for_gazebo.py is Urdf; a file is the list of its lines, and the document of
--   urdf_for_gazebo.py is a tree.
-- * src/ackermann_bringup/launch/navigation_launch.py is Launch/Navigation, as the list of the nodes that
--   it starts; Routing follows their velocities to the topics. Launch/Simulation is
--   src/ackermann_simulation/launch/sim.launch.py, its processes in Simulation/Processes, and
--   Launch/Vehicle is robot.launch.py beside navigation_launch.py, with the order that their event
--   handlers make (Launch/Order).
--
-- How they interact: the coordinator calls `secoc_verify` on each request and `secoc_build` for each
-- verdict, on the counter files that both directions share; the override, the camera, the IMU node and
-- the activation are processes of their own and meet only on topics.
--
-- Conventions: numbers are natural numbers, times are milliseconds, and each callback runs at one
-- instant. Bytes are numbers below 256. Python's unbounded integers are not wrapped; `struct.pack` fails
-- where a number does not fit. Loops are recursion on lists, so no fuel is used; the three rounds of
-- activate.py are its own bound, and are proved to be enough.
--
-- Not in this repository, and so arguments of the definitions: AES-CMAC (the cryptography package),
-- floating-point arithmetic (Override/Floats, with its laws in Override/Bounds), rclpy's
-- calls of the lifecycle services (Activation, with their laws in Activation/Startup), xacro with the printing of its document (Urdf),
-- and the launch system (the laws in Launch/Order and Launch/Navigation/Routing). What the disk, the head
-- unit, the emergency stop and the camera process do at one call is an argument of that call.
--
-- Not modelled: logging; the C++ nodes and the hardware interface; the other launch files; of the
-- tools of the simulation the output of nav_probe.py, the texts that make_arena.py writes, and how
-- clean_map_from_bag.py reads its recording; training scripts and model files.
pub mod Common
pub mod Stamper
pub mod Params
pub mod Urdf
pub mod Launch
pub mod Probe
pub mod Arena
pub mod Secoc
pub mod Coordinator
pub mod Override
pub mod Camera
pub mod Imu
pub mod Activation
pub mod MapCleaner
pub mod Tests
