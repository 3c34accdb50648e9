-- ===== src/Core.antt =====
-- internal/core: the commands, the executor that applies them, and the events that it publishes.
pub mod Events
pub mod Machine
pub mod Labels
pub mod Attentions
pub mod Tools
pub mod Terminals
pub mod Workspaces
pub mod Windows
pub mod Panes
pub mod Closing
pub mod Moves
pub mod Destinations
pub mod Stash
pub mod WindowStash
pub mod Commands
pub mod Executor
pub mod Replica
