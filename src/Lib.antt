-- ===== src/Lib.antt =====
-- The three shells of COMP-310: a1, a2 and a3
--
-- Each of the directories a1, a2 and a3 holds a shell in C. A line is split into words by
-- `parseInput` of shell.c, `interpreter` of interpreter.c runs the command, and shellmemory.c keeps
-- the variables. The first shell has scripts only. The second adds processes: kernel.c schedules
-- PCBs on a ready queue and runs their lines from the frames of a paged memory. The third pages
-- with an LRU list, and has a file system below a3/fs whose sectors go through a write-back cache.
--
-- Prelude holds what the modules share: tests on numbers, lists as arrays, C strings as lists of
-- bytes, C's int, and `Run`, the outcome of C code on a state: a return, `exit`, a fault (a read
-- through NULL, outside an array, or of what is not initialised), or fuel that was used up.
--
-- The first shell. A1/Memory is a1/shellmemory.c, A1/Parse `parseInput` of a1/shell.c,
-- A1/Interpreter the commands of a1/interpreter.c and A1/Interpreter/Scripts its `run`. The loop of
-- parseInput gets as many rounds as the line has bytes and one, that of `run` as many as the file
-- has bytes and one; scripts that run scripts take the depth as fuel.
--
-- The second shell. A2/Vars and A2/Frames are the two stores of a2/shellmemory.c, A2/Stream the
-- files that it reads, A2/Pcb a2/pcb.c, A2/Queue a2/ready_queue.c, A2/State the state that they
-- form, A2/Process `process_initialize`, A2/Execute `execute_process` and A2/Schedule the policies
-- of a2/kernel.c, A2/Interpreter a2/interpreter.c, A2/Parse `parseInput` of a2/shell.c, and
-- A2/System ties them together. The count of commands gets one round more than the file has bytes,
-- the sort of the queue two rounds; the scheduler and the lines within lines run on fuel.
-- removeWhitespace returns the address of an array of its own; what is read there after its return
-- is open in C, so it is a parameter of the frame store, `Stale`, any text for each read; the read
-- itself is taken not to fault. A step of num_lru past INT_MAX is a fault.
--
-- The third shell. A3/Memory is a3/shellmemory.c, A3/LinkedList a3/linked_list.c, A3/Pcb a3/pcb.c,
-- A3/Kernel `run_proc` of a3/kernel.c with a3/cpu.c, and A3/Schedule its processes and policies, on
-- fuel. A3/Parse is `parseInput` of a3/shell.c, and A3/Interpreter the commands of
-- a3/interpreter.c, over an interface of what they call.
--
-- The file system of the third shell. A3/Cache is a3/fs/cache.c over any block device; the clock
-- gets one round more than there are entries. A3/Sectors is the interface of the cache that
-- a3/fs/inode.c uses, with its laws, which A3/Sectors/Cached gets from the cache. A3/Inode is the
-- format of an inode, which the source writes and reads as the bytes that C gives the struct, the
-- map from positions to sectors, and the loops of reads and writes, with a round for each byte at
-- most; A3/Inode/Reserve and A3/Inode/Release take sectors and give them back, and A3/OpenInodes is
-- the table of open inodes. A3/FreeMap is a3/fs/free-map.c: an allocation writes the bitmap to a
-- file, which may allocate in its turn, so the depth is fuel, and one level is enough where the
-- file has room. A3/Files is a3/fs/file.c, A3/Directory a3/fs/directory.c, whose loops get a round
-- for each byte and one, A3/FileSys a3/fs/filesys.c with a3/fs/fsutil.c, and A3/FileSys/Tools and
-- A3/FileSys/Repair a3/fs/fsutil2.c; loops over the entries of a directory run on fuel.
--
-- Strings have no length limit where the code's buffers have room for a line, and parseInput of the
-- first two shells stops at byte 1000 as the code does; malloc succeeds; an `int` that only counts
-- up, and the length of a file, is a natural number. `fopen`, `system`, `stat`, `chdir`, `remove`,
-- `atoi`, the block device and the bitmap are parameters. Not modelled: what only prints or frees,
-- the prompt and the terminal, the start and the end of the file system (filesys_init,
-- filesys_done, do_format, free_map_create, free_map_close), and the library code in a3/fs (list,
-- bitmap but for bitmap_write, debug, block, partition, ide).
pub mod A1
pub mod A2
pub mod A3
pub mod Prelude
