-- ===== src/A2.antt =====
-- The second shell, a2.
pub mod Vars
pub mod Stream
pub mod Pcb
pub mod Queue
pub mod Frames
pub mod State
pub mod Process
pub mod Execute
pub mod Schedule
pub mod Interpreter
pub mod Parse
pub mod System
mod Tests
