-- ===== src/A3.antt =====
-- The third shell: demand paging with an LRU list, and the file system under a3/fs.
pub mod Cache
pub mod Memory
pub mod LinkedList
pub mod Pcb
pub mod Kernel
pub mod Schedule
pub mod Parse
pub mod Bytes
pub mod Sectors
pub mod Inode
pub mod FreeMap
pub mod OpenInodes
pub mod Files
pub mod Directory
pub mod FileSys
pub mod Interpreter
mod Tests
