-- ===== src/Examples.antt =====
-- Runs of the program over small objects.
pub mod Fixtures
pub mod Records
pub mod Deletion
pub mod Providers
pub mod Generators
pub mod Watchers
pub mod Dns
pub mod Zone
pub mod Refines
pub mod Mirrored
pub mod Farewell
pub mod Leaves
pub mod Wiring
pub mod Job
pub mod Api
