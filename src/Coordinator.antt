-- ===== src/Coordinator.antt =====
-- update_coordinator/node.py: which updates may run, and whether the vehicle is held for them.
pub mod State
pub mod Spool
pub mod Lock
pub mod Approval
pub mod Handler
pub mod Node
pub mod Contract
pub mod Counters
pub mod Wire
pub mod Kept
pub mod Invariant
pub mod Polling
pub mod Sweep
pub mod Guard
pub mod Request
pub mod Stranded
