-- ===== src/State.antt =====
-- internal/core/model.go: the state of Core and its copies.
pub mod Defs
pub mod Snapshots
pub mod Listing
pub mod Hierarchy
pub mod Restore
