-- ===== src/Tests.antt =====
-- Tests: the theorems at concrete states, and runs of the operations.
pub mod Counters
pub mod Uses
pub mod Structures
pub mod Tasks
pub mod Events
pub mod Collectives
pub mod Publications
pub mod Regions
pub mod Pools
pub mod Waits
pub mod Debugging
