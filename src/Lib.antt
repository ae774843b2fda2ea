-- ===== src/Lib.antt =====
-- TPE2-SO: a teaching kernel for x86-64 with its userland. This library models the parts of the
-- kernel that keep state for processes, and proves what they promise one another.
--
-- How the parts interact. A process is created with memory from the allocator and becomes a node of
-- the scheduler's ring. It reads and writes through descriptors, each a counted reference to one
-- end of a pipe. A pipe blocks and unblocks processes through the scheduler and guards its ends by
-- semaphores, which block and unblock processes in turn. A function that calls another component
-- returns the list of these calls beside its new state; `alloc` enters as what it returned.
--
-- Which file models which part.
-- Memory.antt: Kernel/MemoryManager/memory_manager.c. `listInit`, `alloc`, `addNodeToFreeList` and
-- `free` are `list_init`, `alloc`, `add_node` and `free`. The `next` and `size` fields of the nodes
-- are functions of the address. Memory/Blocks and Memory/FreeList have the abstract free list, a
-- list of blocks; Memory/AddNode, Memory/Search, Memory/Alloc and Memory/Calls relate the code to
-- it; Memory/Ownership adds the blocks in use.
-- Scheduler.antt, Scheduler/Ops.antt: Kernel/Scheduler/scheduler.c, with the types of
-- Kernel/include/scheduler.h and Kernel/include/processManagement.h, function by function. The
-- fields of the nodes are functions of the address; NULL is address 0. Scheduler/Ring says which
-- list of nodes the ready ring is and Scheduler/Lists also which one the blocked list is;
-- Scheduler/Insert and Scheduler/Quantum are about adding a process and about switching,
-- Scheduler/Cut, Scheduler/Block, Scheduler/Leave, Scheduler/Unblock and Scheduler/Switch about the
-- moves between the two lists, Scheduler/Ending about the end of a process, Scheduler/Turns about
-- how long a process waits for its turn. Scheduler/Descriptors runs the calls of the scheduler on
-- the table of Fd.antt.
-- Semaphore.antt: Kernel/Semaphores/semaphores.c and Kernel/asm/spinlock.asm. A `semWait` that
-- sleeps is two steps, `wait_sem` and `resume_sem`. Semaphore/Counting has the step relation of all
-- processes at one semaphore, Semaphore/Queue the order of the queues and the list of semaphores,
-- Semaphore/Value what each call does to the value.
-- Pipe.antt: `readPipe`, `writePipe` and `closePipe` of Kernel/pipe/pipe.c. A call that blocks
-- returns the state in which the process sleeps; `read_resume` and `write_loop` go on from it.
-- Pipe/Fifo, Pipe/Transfer and Pipe/RoundTrip are about the bytes.
-- Fd.antt: Kernel/pipe/fd.c; Fd/Laws has its laws.
-- NamedPipe.antt: `openPipe`, `mkFifo`, `openFifo` and `rmFifo` of Kernel/pipe/pipe.c, on the state
-- that joins descriptors and pipes. NamedPipe/Creation is about new pipes, NamedPipe/Names about
-- the table of numbers, NamedPipe/Making and NamedPipe/Removing about the operations on it.
-- Syscall.antt: Kernel/interruptions/syscallHandler.c, the handlers that do more than pass their
-- arguments on. Syscall/Table has the table of the calls, Syscall/Read the reading of the terminal,
-- of which Syscall/Read/Line is an editor of lists; Syscall/Handlers is about the other handlers.
-- Strings.antt: Userland/SampleCodeModule/stringUtil.c, on memory as a function of the offset.
-- Strings/Decimal is about `itoa` and `atoi`, Strings/Compare about `_strcmp` and `_strcpy`,
-- Strings/Equal about `_strcmp` on texts given as lists.
-- Snakes.antt: Userland/SampleCodeModule/snakes.c up to `updatePosition`, without what it draws.
-- Snakes/Start has `setPlayers`; Snakes/Body, Snakes/Food and Snakes/Rules are about the snakes,
-- the food and the moves; Snakes/Moves has the rule of the moves.
-- Keyboard.antt: Kernel/drivers/keyboard.c, with `waitKey` as a part of `read_key`; Keyboard/Keys
-- has the keys of Kernel/include/keyboard.h and the tables. Keyboard/Queue is about the interrupt
-- handler, Keyboard/Reading about the readers.
-- Philosophers.antt: Userland/SampleCodeModule/philosophers.c, `tryToEat` and `stopEating` as the
-- steps of processes that are interleaved in any order, over the semaphores of Semaphore.antt. The
-- race of Semaphore/Counting, in which another process takes the value for which a sleeper was
-- woken, is a part of the steps; `NoTheft` says of a run that it does not happen.
-- Philosophers/Mutex is about the semaphore of the table, Philosophers/Safety about who eats,
-- Philosophers/Race about a run with that race.
-- Shell.antt: Userland/SampleCodeModule/shell.c from a line to the calls that start its commands;
-- Shell/Commands has the table of include/commands.h there. Shell/Words is about `split`,
-- Shell/Lookup about the two searches, Shell/Piped about the turn for two commands, Shell/Line
-- about the whole line.
-- Process.antt: Kernel/Scheduler/processManagement.c. Process/Words is about words in memory and
-- the registers, Process/Arguments about the memory of the new process, Process/Creating about
-- `processCreate` with the scheduler.
-- Base.antt: shared names, Boolean tests, words, lists.
--
-- Bounds and fuel. Words wrap where the source's do: 64-bit sizes and counters, 32-bit pipe
-- indices. Not so where a wrap is out of reach: the counter of ready processes, which counts nodes
-- in memory, grows without bound, and the sizes that `alloc` and `free` add and subtract are those
-- of blocks of one pool, of which the smaller is subtracted. `generateRandomPosition` divides by
-- the width and the height of the board in cells, which is a fault for fewer than 8 pixels; the
-- model is total there. The loops of the allocator over the free list run on fuel; `max_size`
-- rounds are enough, since a pool has fewer free blocks than bytes, and the theorems on `alloc` and
-- `free` give a result for every fuel from there on. `searchBlockNode` runs on fuel too, and so
-- does `readAscii`, where one more than the number of keys that wait is enough. All other loops
-- recur on a count or a list. The loops over texts run on fuel, and the theorems say how much is
-- enough; 32 rounds count the digits of an `int`.
--
-- Not modelled: what only prints, the console and speaker drivers, the interrupt entry code, the
-- boot loader, the unfinished buddy allocator (it is compiled out and does not compile), the clock,
-- the shell's input, the wrapper of the processes that it starts, its commands, the manager and the
-- printer of the philosophers, and the turns of the game. Calls between components are atomic here:
-- a timer interrupt in the middle of a kernel function is not.
pub mod Base
pub mod Memory
pub mod Pipe
pub mod Fd
pub mod NamedPipe
pub mod Semaphore
pub mod Scheduler
pub mod Keyboard
pub mod Strings
pub mod Syscall
pub mod Snakes
pub mod Philosophers
pub mod Shell
pub mod Process
