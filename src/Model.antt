-- ===== src/Model.antt =====
-- internal/core: the domain types, what makes a value of each valid, and the maps and counters of
-- the state. Identifiers are uint64, weights uint32; times are natural numbers, 0 the zero time.
pub mod Errors
pub mod Terminal
pub mod Json
pub mod Tool
pub mod Pane
pub mod Label
pub mod Attention
pub mod Places
