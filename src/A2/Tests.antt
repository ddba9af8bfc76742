-- ===== src/A2/Tests.antt =====
-- Runs of the model of the second shell, and its theorems at concrete inputs.
mod Variables
mod Queueing
mod Paging
mod Shells
