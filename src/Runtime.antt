-- ===== src/Runtime.antt =====
-- src/runtime_worker.rs: the loop of the runtime worker, with the socket of src/rpc.rs, the
-- cancellation flags and the thread pool of src/outbound.rs.
pub mod Cancel
pub mod Capacity
pub mod Claim
pub mod Harvest
pub mod Jobs
pub mod Pool
pub mod Rpc
pub mod Startup
pub mod Safety
pub mod System
pub mod Tick
pub mod Turns
