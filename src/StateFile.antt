-- ===== src/StateFile.antt =====
-- internal/statefile: the file that keeps the state of the daemon.
pub mod Store
