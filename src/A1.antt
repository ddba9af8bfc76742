-- ===== src/A1.antt =====
-- The first shell: variables, commands and scripts, without processes.
pub mod Memory
pub mod Parse
pub mod Interpreter
mod Tests
