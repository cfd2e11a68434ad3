-- ===== src/Lib.antt =====
-- A verification of the core of DLXOS, the teaching operating system under os/, and of its library
-- routines.
--
-- The parts of the program and the modules that stand for them:
--   * Queue: os/queue.c and include/os/queue.h. Links and queue headers are records in a store of
--     addresses (Queue.Store); the routines are in Queue.Insertion, Queue.Removal and Queue.Moving.
--     Queue.Shape says what it is for a queue to hold a list of links.
--   * Memory: os/memory.c. The bitmap of free pages (Memory.Freemap), page-table entries and
--     translation (Memory.Address), copying between spaces (Memory.Moving). Prelude.Bits has the digits
--     of a number, in which the laws of the bitmap are proved.
--   * Kernel: the static variables that os/process.c, os/synch.c and os/memory.c share, over one
--     store of queues, with the interrupt level of the processor.
--   * Process: os/process.c. Status bits, the transitions between the run queue, the wait queue and
--     the zombies (Process.Transitions), and ProcessSchedule (Process.Schedule).
--   * Synch: os/synch.c. Semaphores, locks and condition variables (Synch.Semaphore, Synch.Mutex,
--     Synch.Condition), which put processes on queues of their own, call ProcessWakeup, and go to
--     sleep through the trap that calls ProcessSuspend and ProcessSchedule.
--   * Text: os/misc.c and include/misc.h, and getxvalue of os/process.c.
--   * Startup: get_argument, process_create and ProcessFork of os/process.c, on the module Machine, which
--     adds the bytes of memory, the stack frames and the keyboard to the kernel; ProcessGetCodeInfo and
--     ProcessGetFromFile, which read a program, in Startup.Loading.
--   * Traps: os/traps.c. How a handler reads its arguments (Traps.Arguments), and dointerrupt with the
--     routine that serves each trap (Traps.Dispatch).
--   * Slots: the programs of apps/q3, which share a circular buffer under two semaphores and a lock, as
--     processes that take one step at a time, in any order.
--   * Monitor: the programs of apps/q4, which share the buffer under a lock and two condition variables. A
--     process takes turns, and the order of the turns is a list of processes.
--   * Buffer: the circular buffer that the producers and consumers of apps/q2 share under a lock.
--   * Reactions: the programs of apps/q5, which run on the system and share its semaphores, as
--     sequences of waits and signals that interleave.
--   * Files: os/filesys.c, the table of open files in front of the simulator and the DLX stubs.
--
-- State is passed explicitly. A routine is a function from a state to a Run (module Run), which ends
-- with a value and a state, in a read or write through NULL, in exitsim(), or with its fuel used up.
-- `Returns P r` says that the run r ends with a value and a state that satisfy P, so it is total
-- correctness. A routine that ends in ProcessSleep() has the outcome `asleep`, as the caller goes on
-- only when it is woken.
--
-- A write past an array that the model keeps apart from what lies behind it is a fault too: the name of a
-- process, in ProcessFork. What lib/share_memory.o does with a page is a hypothesis where it matters: the
-- page of a process that shares none is left alone (SharesNone, FreshPages).
--
-- Addresses are numbers, and NULL is 0. The address of a link is its place in linkpool and more than
-- 0; a PCB has its index and 1; the kernel's queues have the addresses of the module Kernel.
--
-- Fuel: the loop of the zombies has 33 rounds, as there are 32 PCBs; LockTransfer has a round for
-- each link and one more; MemoryAllocPage has a round for each word of the map and one more, and 32
-- for the bits of a word; the loop over the arguments of a program has 101, as `location` moves on
-- in each and stops it at 99. A scan of a string and the reads of the keyboard have as many rounds as
-- the theorem about them asks for.
--
-- Not modelled: the assembly files, lib/share_memory.o (its routines are parameters, with the loads
-- and stores of words, in the record Platform), the traps of the simulator (the record Simulator is a
-- parameter; what the loader asks of the file system is the record FileCalls, a parameter too, as the
-- traps put the characters that they read into memory), what is printed, main, os/sysproc.c, whose
-- processes only test the system, and the programs under apps/ other than the reactions of q5, the loops
-- of q3 and q4 and the critical sections of q2. Integers are
-- taken to stay within the machine's 32 bits, but for the bitmap, the page-table entries, the status
-- bits and the results of traps, which wrap.
pub mod Buffer
pub mod Files
pub mod Kernel
pub mod Machine
pub mod Memory
pub mod Monitor
pub mod Prelude
pub mod Process
pub mod Queue
pub mod Reactions
pub mod Run
pub mod Slots
pub mod Startup
pub mod Synch
pub mod Text
pub mod Traps
