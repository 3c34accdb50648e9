-- ===== src/Tui.antt =====
-- internal/frontend/tui: the parts of the terminal frontend that compute.
pub mod Split
pub mod Resize
pub mod Prompt
pub mod Keys
pub mod Frames
