-- ===== src/Lib.antt =====
-- ZurichOS is a small x86 kernel in C with its own processes, inter-process communication, security
-- filters and network stack. This library models parts of it that keep tables and queues, each
-- function as a pure function from the state before to the state after and the result, and proves what
-- keeps those tables right.
--
-- The parts, the files that model them, and the code:
--   Memory.Frames         kernel/mm/pmm.c: the bitmap of page frames
--   Memory.Paging         kernel/mm/vmm.c: the page directory and the page tables
--   Memory.Heap           kernel/mm/heap.c: the first-fit allocator of the kernel
--   Process               kernel/process/process.c: the process table, fork, exit, wait
--   Process.Signals       kernel/signal/signal.c and process_check_signals of process.c
--   Ipc.Messages          kernel/ipc/ipc.c, msgq_*: queues of typed messages
--   Ipc.Pipes             kernel/ipc/ipc.c, pipe_*: circular byte buffers behind descriptors
--   Security.Capabilities kernel/security/capabilities.c: three masks for each process
--   Security.Seccomp      kernel/security/seccomp.c: syscall filters
--   Sched                 kernel/sched/scheduler.c: the task table, the ready queue, who runs when
--   Sync.Waitqueue        kernel/sync/waitqueue.c: queues of sleeping tasks
--   Sync.Rwlock           kernel/sync/rwlock.c: the lock and the interleavings of its callers
--   Sync.Semaphore        kernel/sync/semaphore.c: counting semaphores under interleavings
--   Sync.Mutex            kernel/sync/mutex.c, condvar.c: priority inheritance, waiting for a condition
--   Net.Routes            services/net/route.c: routes and the longest-prefix lookup
--   Net.Arp               services/net/arp.c: the cache of hardware addresses
--   Net.Checksum          the checksums of services/net/ip.c, icmp.c and tcp.c
--   Net.Tcp               services/net/tcp.c: connections and the state machine
--   Libc.Strings          libc/string/string.c: copies, comparisons and searches of strings
--   Fs.Ramfs              kernel/fs/ramfs.c: files and directories in memory
--   Fs.Vfs                kernel/fs/vfs.c: the walk along a path, over an interface that Fs.Ramfs fills
--   Base                  lists as C arrays, words as numbers with bits, circular buffers, searches
--
-- The C names are kept, without a prefix that the module already says (pmm_, rwlock_, waitqueue_), and
-- where a function is split in parts, the parts have names of their own; a pointer into a static table
-- is an index, and a null pointer is `none`. Pipes and signals use the process table of Process: a
-- pipe's ends are descriptors of the current process, and a write to a pipe without readers sends a
-- signal. Below a part's file, its Calls and Input files hold more of its functions, and the other
-- files hold proofs, named for what they prove. Each Examples file applies the theorems at concrete
-- states.
--
-- Numbers are natural numbers, with the wrap of 32 or 64 bits written out where the code can wrap. A
-- loop over an array is recursion on the rounds that are left, counted from the array's size, so no
-- fuel can run out; the loop that folds the carries of a checksum runs on two rounds, and
-- Net.Checksum.Stamp uses that two are enough for 32 bits. The loops over a string run on fuel, the
-- walk along a path on as much as the path is long, which Fs.Vfs.Lookup shows to be enough, and the
-- theorems on strings give the fuel that is enough: the string's length. The loops of the locks and of
-- the semaphore, which may wait forever, are one turn of a task for each round, and a run is any list
-- of turns.
--
-- Left out: what is printed on the serial line, names of processes, the registers and the stacks, the
-- bytes of TCP headers, process_exec, and all code that drives devices or the screen. The handler that
-- a process installs for a signal is a parameter, as are whether kmalloc has room for a file or for an
-- entry of a wait queue, whether another task is ready when one is to block, whether the magic number
-- stands before a freed pointer that belongs to no block, what a page held before it was mapped, the
-- tick count, the memory size that the boot loader reports and the address of the network interface.
pub mod Base
pub mod Fs
pub mod Ipc
pub mod Libc
pub mod Memory
pub mod Net
pub mod Process
pub mod Security
pub mod Sched
pub mod Sync
