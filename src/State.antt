-- ===== src/State.antt =====
-- internal/state/store.go: what a valid configuration and a valid session are, and how they are
-- written to disk and read back.
pub mod Validate
pub mod Files
pub mod Store
