-- ===== src/Tests.antt =====
-- Runs of the model of crates/ on small inputs, and the theorems at inputs that meet their hypotheses.
pub mod Fixtures
pub mod Core
pub mod Validity
pub mod Log
pub mod Storage
pub mod Snapshots
pub mod Loop
pub mod Kv
pub mod Network
pub mod Messages
pub mod Transport
pub mod Startup
pub mod Memory
pub mod Simulation
pub mod Handlers
