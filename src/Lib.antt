-- ===== src/Lib.antt =====
-- A kernel for an operating systems course, xv6 in three projects: project1_scheduler gives it a
-- multi-level feedback queue, project2_LWP threads, project3_filesystem a buffered file system with
-- large files. Each project directory is a kernel of its own.
--
-- Mlfq: project1_scheduler/proc.c and queue.c
--   State       Link, Queue and Queues of proc.h: an index for a `struct proc *` or `struct queue *`
--   Queue       erasequeue, pushqueue, popqueue, frontqueue, pushfrontqueue, over the pointers
--   Kernel      Proc, ProcState and the table: `ptable`, ticks, nextpid, the process on the CPU
--   Scan        the loops that look for an entry of a table
--   Sched       getTimeQuantum to setLevel, and scheduler() as pick, dispatch, after_switch
--   Process     allocproc, fork, exit, wait, sleep, wakeup1, kill, yield, sched
--   Queue/*     the lists that the pointers stand for (Chain), what an operation leaves alone
--               (Effect), and Push, Front, Drop, Erase
--   Invariant   exactly the entries in use stand in one of the three queues
--   Requeue, Expire, Boost, Choose, Pick, Alloc, Lock: the functions of Sched and Process
--   Examples    a table of four processes
-- Log: project3_filesystem/log.c, over a disk and the contents of the buffers
--   Crash       transactions, and the disks that a commit may leave behind
--   Install, Commit, Recover, Write, Sync: the functions of log.c
--   Examples    a transaction of one block
-- Lwp: project2_LWP/proc.c
--   State       struct thread and struct proc of proc.h, the table, and ptable.lock
--   Thread      thidxtorun to freeustack, thread_exit, thread_join, setmemorylimit, and the turn of
--               scheduler() for one process
--   Process     allocproc, fork, exit, kill, and the turns of wait()
--   Create      thread_create, with the stacks of the new thread
--   RoundRobin, Dispatch, Join, Exit, Wakeup, Creation: the functions of Thread and Create
--   Yield       turns of scheduler() in which each thread yields
--   Examples    a process of two threads
-- Fs: project3_filesystem/fs.c
--   State       blocks of bytes, the inodes in memory, and the sizes of the superblock
--   Bits        the bits of a byte
--   Bitmap      balloc and bfree on the free map, with Alloc and Free for what they do
--   Map         bmap, bmapstep; Map/Paths has the places of an inode's block map, Tree its
--               invariant, Step, Grow, Chain the levels, Bmap and Block what bmap does
--   Inodes      ialloc, iupdate, iget, idup, ilock; Inodes/Words and Dinode have the struct dinode in
--               its block, Update, Get and Create what the operations do
--   Trunc       freeDouble, itrunc, iput; Trunc/Clear has the blocks freed so far, Levels, Branches
--               and Roots the parts of a file, Whole itrunc, Put references
--   Path        skipelem, and the elements of a path
--   Content     read_file and write_file, the parts of readi and writei for a file that is no link
--               and no device; Content/Read the bytes of a file, Copy memmove, Write and Rewrite the loop of
--               writei and what a read then returns
--   Examples    a disk of twelve blocks, its inodes and its file
-- Buffers: project3_filesystem/bio.c, with iderw of ide.c and acquiresleep of sleeplock.c
--   Walk, Ring  the list through bcache.head, and what unlinking and pushing do to it
--   Find        the walks of bget
--   Coherent    what the buffers hold, and the latest contents of a block
--   Get, Read   bget after its look at the room, and the bread that follows
--   Serve       bread up to the call of sync1 that makes room, and from its return on
--   Release, Write, Boot: brelse, bwrite, binit
--   Examples    the buffers after binit, and a cache full of changed blocks
-- Pipe: project3_filesystem/pipe.c, the same file in each project
--   Contents    the queue of bytes in the ring
--   Fifo        pipewrite and piperead
--   Examples    a pipe whose counters wrap around
-- Files: project3_filesystem/file.c, the same file in each project, with pipealloc of pipe.c
--   Chunks      filewrite to an inode, over Fs/Content
--   ReadWrite   fileread after filewrite
--   Close       filedup and fileclose
--   PipeAlloc   pipealloc, and closing both ends
--   Examples    two files open on the file of Fs/Examples
-- Pages: project2_LWP/kalloc.c, but for frees() the same file in each project
--   Owned       kalloc and kfree in any order, and frees
--   Range       freerange
--   Examples    two pages behind a kernel
-- Outcome has the commands in which kernel code is written, Prelude what all share.
--
-- A command returns with a new state, stops in panic, or faults at a NULL pointer or outside an
-- array. Walks over a queue get NPROC + 1 rounds, since a queue holds each entry at most once, and
-- the inner loop of scheduler() NPROC + 1 turns, since each turn but the last expires a quantum
-- that stays unused until a process runs. The walk round the threads of a process gets NTHREAD
-- rounds, the walks over the buffers NBUF + 1. The loops over the table and the log are bounded by
-- the code.
--
-- fs.c works on one device and on the latest contents of the blocks; that log_write was called is
-- recorded, and Log has what it does. The sleep locks of inodes are left out. balloc gets a round
-- for each block of the free map, and one more; the loops of readi and writei one for each byte,
-- and one more, since each round moves a byte at least, and so for the chunks of filewrite.
-- freerange gets a round for each page below the end, and one more.
--
-- One CPU runs one critical section at a time; locks, interrupts and the context switch are not
-- modelled, and a function that sleeps or switches ends there. Machine addresses, page tables,
-- trap frames, directories and the symbolic links and drivers in readi and writei are outside the
-- models. The answers of kalloc(), copyuvm(), allocuvm() and copyout() are arguments. The log
-- takes the buffer of a block as its latest contents, which the cache keeps as long as the block
-- is dirty; log_write and the cache do not share a state. One process uses the buffers, so that a
-- lock that is held is its own, disk 1 is present, and the queue of the disk is empty when iderw
-- is called. A call of bread that goes to sync1 ends with the answer `syncs`, and bread_synced
-- goes on when sync1 has returned; what sync1 does is in Log. The numbers of ticks and pids are
-- taken as natural numbers.

mod Prelude
pub mod Outcome
pub mod Mlfq
pub mod Log
pub mod Lwp
pub mod Fs
pub mod Pipe
pub mod Buffers
pub mod Files
pub mod Pages
