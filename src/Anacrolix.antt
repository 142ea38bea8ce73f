-- ===== src/Anacrolix.antt =====
-- internal/engine/anacrolix: the engine that the program is built with.
pub mod Paths
pub mod Disk
pub mod Removal
pub mod Shared
pub mod Migration
pub mod Library
pub mod Operations
pub mod Removing
pub mod Snapshots
pub mod Composed
pub mod Knowing
pub mod Entries
pub mod Priorities
