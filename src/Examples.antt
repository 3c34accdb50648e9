-- ===== src/Examples.antt =====
-- The theorems at concrete inputs, and small runs of the model.
mod Layouts
mod Commands
mod Runs
mod Subscribing
mod Contents
mod Replicas
mod Screens
mod Files
mod Prompts
mod Keys
mod Frames
mod Stashes
