-- ===== src/Tests.antt =====
-- Concrete captures, runs of the model on them, and the theorems at these inputs.
mod Net
mod Frames
mod Runs
mod Text
mod Servers
mod Stores
mod Lines
mod Whole
mod Datagrams
mod Bodies
mod Answers
mod Replays
mod Wires
mod Scripts
mod Calls
mod Programs
