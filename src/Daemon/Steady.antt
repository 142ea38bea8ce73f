-- ===== src/Daemon/Steady.antt =====
-- internal/daemon: the state that requests and the scheduler keep, on a disk that takes every write.
pub mod Sessions
pub mod Saving
pub mod Records
pub mod Steps
pub mod Controls
pub mod Removal
pub mod Moving
pub mod Adding
pub mod Requests
pub mod Scheduling
pub mod History
pub mod Showing
pub mod Recording
pub mod Restoring
pub mod Starting
