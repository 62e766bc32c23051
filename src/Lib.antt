-- ===== src/Lib.antt =====
-- BradypOS: a microkernel of the L4 family for microcontrollers without an MMU, with its user space.
--
-- The kernel keeps up to 16 threads in control blocks (kern/thread.c), finds them by thread number in
-- a sorted list, and picks the thread to run from a heap by priority (lib/heap/include/heap.inc). A
-- queue of timed events (kern/kalarm.c) ends pauses and IPC timeouts and calls the scheduler. System
-- calls reach the kernel thread through a soft interrupt: the interrupt of the call (kern/syscall.c)
-- blocks the caller and makes the kernel thread run, which dispatches to the handlers (kern/syscall/)
-- and makes the caller runnable again. IPC copies messages between the UTCBs of two threads.
--
-- Files:
-- - Base (Tests, Array, Lists): Boolean tests, 32-bit decrement, arrays as functions from indices
--   with the number of occurrences of a value, list lengths.
-- - Heap: lib/heap/include/heap.inc, with HEAP_COMPARE and HEAP_SIZE as parameters. Heap/Order has
--   the heap order and insertion, Heap/Contents what each operation does to the entries, Heap/Sinking
--   where `sink` restores the order and where not.
-- - Alarm: kern/kalarm.c. A `struct kalarm_event *` is an index into the events, a `struct
--   kalarm_event **` a `Slot`. Alarm/Chain is about the chain of `next` pointers, Alarm/Insertion
--   about registering an event, Alarm/Queue about popping and moving one.
-- - Ids: include/l4/thread.h, the fields of thread identifiers; Ids/Fields is about composed ones.
-- - Kernel: the records of kern/include/kern/thread.h and kern/include/kern/memory.h and the static
--   variables of the kernel in one record; Kernel/Sample has states for tests.
-- - Memory: the memory of the threads by words: UTCBs (Memory/Utcb, include/l4/utcb.h), the saved
--   registers on their stacks, message tags (Memory/Tag), items and errors of include/l4/ipc.h,
--   flexpages of include/l4/space.h, and the copies of lib/string/string.c. Memory/Copies is about
--   those.
-- - Time: include/l4/time.h and lib/l4/schedule.c, the times of IPC timeouts.
-- - Thread: the thread list and the control blocks of kern/thread.c. Thread/Find is about the binary
--   search, Thread/Insert and Thread/Delete about the list, Thread/Blocks about allocation and
--   `create_thread`.
-- - Scheduler: the rest of kern/thread.c. Scheduler/Room counts heap entries, Scheduler/State has the
--   invariant, Scheduler/Update `set_thread_state`, Scheduler/Next `schedule_next_thread`,
--   Scheduler/Kill the deletion of the running thread, Scheduler/Priority `set_thread_priority`,
--   Scheduler/Frame changes that leave the scheduler or the tables of threads alone, Scheduler/Kept
--   what `set_thread_state` leaves alone.
-- - Ipc: the search for a partner in kern/syscall/ipc.c; Ipc/Transfer has `copy_payload`, Ipc/Waiting
--   `set_thread_timeout`, and Ipc/Phases the send and receive phases, `do_ipc` and `do_ipc_timeout`.
--   Ipc/Partner is about the answers of the search, Ipc/Reach about the searches along the threads of
--   an address space, Ipc/Written and Ipc/Delivery about the copy of untyped words, Ipc/Rounds about
--   the loop over typed items, Ipc/Overflow about a message that is too long, Ipc/Timeout about zero
--   and endless timeouts. Ipc/Table, Ipc/Frames, Ipc/Serving and Ipc/Whole follow the scheduler's
--   invariant through the whole call.
-- - Calls: the other system calls of kern/syscall/ (Calls/Threads, Calls/Spaces, Calls/Schedule) and
--   their way from the interrupt to the handler in kern/syscall.c and kern/softirq.c
--   (Calls/Dispatch). Calls/Serving is about the scheduler's invariant, Calls/Placement about the
--   page for UTCBs, Calls/Answers about what becomes of the caller, Calls/Deferred about the way to the
--   kernel thread.
-- - Systick: the interrupt of the timer in kern/kalarm.c; Systick/Due is about the events that are
--   due.
-- - Serial: the ring of received characters in usr/pl011/pl011.c. Serial/Ring relates it to a queue,
--   Serial/Reading has the draining of the device and the read.
-- - Spaces: address spaces and the fault handler of kern/memory.c. Spaces/Creation is about a new
--   space, Spaces/Fault about the death of a thread.
-- - Services: the registry of services in usr/root/service.c. Services/Lookup is about what a lookup
--   finds, Services/Handlers about the messages.
-- - Pages: lib/buddy/linked_list_alloc.c. A pointer to a page is the page's number, the node of a free
--   range stands at its first page, and a `struct linked_list_node **` is a `Slot`. Pages/Ranges has
--   lists of ranges and first fit on them, Pages/FirstFit is about that, Pages/Chain about the nodes
--   as such a list, Pages/Search and Pages/Walk about an allocation, Pages/Refines about all of it.
-- - Fpage: include/l4/fpage.h, include/l4/space.h and the grant items of include/l4/ipc.h as the user
--   space sees them; Fpage/Laws is about the fields and the sizes.
-- - RootMemory: usr/root/memory.c, the memory of the root server on top of Pages. RootMemory/HeapStart
--   is about the start of the heap, RootMemory/Grants about a request, RootMemory/Returns about memory
--   that comes back.
-- - Romfs: lib/romfs/romfs.c, with the interface to the blocks as the parameter `map`. Romfs/Text is
--   about `strcmp`, Romfs/Lookup about the search of a directory.
-- - RomfsServer: usr/root/romfs_server.c on top of Romfs: the table of open files, and the requests
--   (RomfsServer/Handlers). RomfsServer/Table, Deletion, Insertion, Stays and Isolation are about the
--   table, Requests and Steps about what a request does to it, Clients about what a client gets, and
--   Bounds about the bytes that it reads.
-- - Shell: the line editor and the output of usr/bsh/bsh.c; Shell/Editing relates the editor to a list
--   of characters, Shell/Output is about chunks and writes.
-- - Elf: lib/elf/elf.c, with the operations of the caller as parameters. Elf/Headers is about the check
--   of the header, Elf/Addresses about the translation of addresses, Elf/Loading about the segments.
-- - Config: the parser of the inittab in usr/root/config.c, with the calls of the file server and the
--   loader as parameters. Config/Ends is about the end of the text.
-- - The modules named Examples, and Ipc/Messages, hold tests and instances.
--
-- Correspondence. Functions keep the names of the C functions; a C loop is a function of its own on
-- fuel or on the rounds left. A function that changes static variables or memory takes the state
-- and returns the new one. Where the kernel panics or an assertion of `kassert` fails, the result
-- is `none`; so it is where the size of a flexpage is a shift by 32 or more, which C leaves
-- undefined. Arrays are functions from indices: an access past an array reads what the function
-- holds there, and the theorems about the search state the range of the indices. The memory is a
-- function from word addresses to 32-bit words, so that UTCBs and stacks may overlap unless a
-- hypothesis says otherwise; bytes are little-endian parts of words. The address of the interface
-- page, what it says of itself and its flexpage are parameters (`Interface`, `kip_fpage`), since
-- the linker places the page.
--
-- Fuel and bounds. `swim_loop` runs on the index that it starts from, `sink_loop` on the size of the
-- heap, `find_loop` on one more than the thread count: each round brings the loop closer to its end,
-- so this is enough. `find_from` of Alarm runs 18 rounds, one more than there are events; it yields
-- `none` where a cycle keeps the loop from ending. The searches along siblings run 17 rounds, one
-- more than there are threads, and yield `none` in the same case and where the loop follows a NULL
-- pointer. Unsigned subtraction that may pass zero is written with its wrap-around (`dec32`). The
-- loop over typed items runs 9 rounds: each round that goes on moves past two of at most 16 words.
-- `do_ipc` calls itself once for each thread that sent to a waiting one, and has fuel for 17 calls,
-- one more than there are threads. `run_due` has fuel for the 17 events; `softirq_execute` takes its
-- fuel as an argument. The walk along free pages takes fuel, and more than the number of free ranges is
-- enough; the search of a directory takes fuel, and more than the number of its files is enough, while a
-- chain of headers that leads back into itself never ends. The rounds of the table of open files are the
-- source's five. The output of the shell takes fuel, and more than the number of bytes is enough. The
-- parser of the inittab takes fuel; its `none` is the end of the fuel or a read behind the text.
--
-- Not modelled: register contexts and interrupt entry in assembly, debug output, the masking of
-- interrupts (the functions run one after the other), and the devices. Compound strings, time points
-- as timeouts, preemption control and four of the calls are not implemented in the source, which
-- panics. Of the user space, the start of programs and the dispatch of requests in the root server, the
-- opening of the inittab, the device of the serial driver, the relocations and symbols of ELF files and the second terminal are not modelled. The
-- answers of servers, the compiler's count of leading zeros and the system call for unmapping are
-- parameters. The bytes that a loaded segment holds are not modelled.
pub mod Base
pub mod Heap
pub mod Alarm
pub mod Ids
pub mod Kernel
pub mod Memory
pub mod Time
pub mod Thread
pub mod Scheduler
pub mod Ipc
pub mod Calls
pub mod Systick
pub mod Serial
pub mod Services
pub mod Spaces
pub mod Pages
pub mod Fpage
pub mod RootMemory
pub mod Romfs
pub mod RomfsServer
pub mod Shell
pub mod Elf
pub mod Config
