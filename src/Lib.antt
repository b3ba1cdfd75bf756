-- ===== src/Lib.antt =====
-- Models of the operating system egos-2000 and of the course projects beside it, and theorems on them.
--
-- The parts of egos-2000, and how they interact. A trap of a core enters `kernel_entry` in
-- egos-2000/grass/kernel.c, which saves the context of the current process, handles a system call or
-- a timer interrupt, and returns to the process that `proc_yield` chose. System calls are messages:
-- the kernel copies `struct syscall` out of the caller's page and delivers it to a process that waits
-- for it. The process table, with the feedback queue that orders processes in levels, is
-- egos-2000/grass/process.c. Memory is pages of egos-2000/earth/cpu_mmu.c, which on a machine without
-- translation copies the pages of a process in and out when it is switched. Files are trees of blocks
-- of egos-2000/library/file/file1.c, over an inode store: the disk, or memory in
-- egos-2000/tools/mkfs.c.
--
-- The files and the sources that they model.
--   Base      names that all modules share: tests, machine words, C arrays as functions, counted loops
--   Process   egos-2000/grass/process.c and process.h: the record Process is `struct process`, the
--             table is a function of the slot, and each function of the source has its name here;
--             Status, Alloc, Free and Mlfq hold the theorems by operation, Released the parts of
--             Free, Tame what they all keep
--   Mmu       egos-2000/earth/cpu_mmu.c, the page table and the software TLB; memory is a function of
--             the page number; Alloc and Switch hold the theorems
--   Kernel    egos-2000/grass/kernel.c with egos-2000/library/syscall/syscall.h and `timer_reset` of
--             egos-2000/earth/cpu_intr.c: the state of the kernel is a record, the control registers
--             of the core are the record Cpu, `none` is a FATAL stop; Layout is the struct in memory,
--             Message, Schedule and Context hold the theorems on messages, on the choice of a process
--             and on a whole trap, Saved what the bookkeeping leaves of the saved contexts, Keeping
--             what every part of a trap keeps; System is the grass layer from `grass_entry` of
--             egos-2000/grass/init.c on, as a step relation with its reachable states, Invariant and Boot hold the theorems on it
--   Treedisk  egos-2000/library/file/file1.c and file1.h over the interface of
--             egos-2000/library/file/inode.h, which Store has with its laws; an Outcome is a result,
--             a negative result or a panic; Create has `setup_freelist` and `treedisk_create`;
--             Levels, Slots, Freelist, Fill, Setup and Walk hold the theorems; Supply is the free list
--             while other blocks are written, Hole, Descent and Grow are the parts of a write that
--             allocates, Found the snapshot of an inode, Filled and Stored a read after any
--             write
--   Mydisk    egos-2000/library/file/file0.c, the flat file system, over the same interface
--   Threads   group-16-5/simple-multithreader.h: a thread is the list of the calls that it makes;
--             Partition and Grid hold the theorems on its two `parallel_for`, Trace those on threads
--             side by side
--   Loader    group-16-4/SimpleSmartLoader.c: the page fault handler over the memory of a program; Page
--             and Fault hold the theorems on one page, Handler those on the search for a segment
--   Scheduler group-16-3/scheduler.c: its loop on the jobs in shared memory, without the signals that
--             it sends and without jobs that the shell adds meanwhile; Rotation has the theorems on
--             one round, Ending and Shutdown those on the end of the loop; Shell is the commands of
--             group-16-3/simple-shell.c
--   SimpleShell group-16-2/simple-shell.c.c: the history, the parser, the arrays of a pipeline and the
--             records of the processes; what the system answers is an argument, `undefined` is an
--             access that C does not define; Tokens, History, Pipes and Records hold the theorems
--   PageTables egos-2000/earth/cpu_mmu.c, the tables of Sv32: Bits is a word, Walk the walk of the
--             hardware in user mode with the shape of the tables, Leaf, New and Region one region,
--             Identity all
--   Elf       egos-2000/library/elf/elf.c over the pages of Mmu; Pages has what a taken page means for
--             the others, Copying, Blocks and Rounds the loop over blocks, Loading one segment,
--             Program the file, Aligned a file whose segments start with blocks and pages
--   Servers   egos-2000/apps/system and library/syscall: Requests is `parse_request` of sys_shell.c;
--             Directory is `dir_lookup`, with the directories of tools/mkfs.c in Entries; Terminal is
--             `term_read` with sys_terminal.c, and Editing the line that it reads; Files is the file
--             server sys_file.c with `file_read`; Processes is the process server sys_proc.c over the
--             system of Kernel.System, Loading the start of a process, Spawn a request of the shell
--   StarterLoader group-16/starter/without-bonus/loader.c, up to the call of the loaded program
--   UserPrograms egos-2000/apps/user: Cd is the path of cd.c, Checksum that of udp_demo.c, Grep is
--             grep.c
--
-- Numbers. An unsigned C integer is a natural number below 2^32 or 2^64, with its wrap-around written
-- out; an `int` is its bit pattern. Readings of the clock and the pending input are arguments.
--
-- Fuel. `count_levels` has fuel 6, since 5 levels of 7 bits reach beyond 32 bits; `setup_freelist` has
-- fuel for one more round than there are blocks, since each round uses a block at least;
-- `parseInput` has fuel for as many tokens as there are bytes; `checksum` has two rounds for its
-- loop; the loop of the scheduler has fuel for a round more than jobs are ready; the reading loop of
-- grep ends in its first round; the loops of the threads have fuel for a round more than their range
-- has indices, so that their test ends them. The theorems on them state that this is enough.
--
-- Not modelled: assembly and boot code, and the drivers of the disk and the terminal, which are reads
-- and writes of device registers; `printf` and `malloc`; the other user programs; the start of the
-- process and file servers. What the model does not have is an argument of it. Kernel output is
-- modelled where it is the result of an operation (the statistics of a process, the echo of the
-- terminal). The store of mkfs.c is modelled without the end of its array, which its code does not
-- test either. System is a sequence of whole steps: a call through the grass interface is one step,
-- though the code does not take the kernel lock for it.
pub mod Base
pub mod Elf
pub mod Loader
pub mod Mmu
pub mod Mydisk
pub mod PageTables
pub mod Process
pub mod Kernel
pub mod Scheduler
pub mod Servers
pub mod SimpleShell
pub mod StarterLoader
pub mod Threads
pub mod Treedisk
pub mod UserPrograms
