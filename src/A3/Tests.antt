-- ===== src/A3/Tests.antt =====
-- The theorems on the third shell at concrete states.
mod Caching
mod Paging
mod Files
mod Commands
