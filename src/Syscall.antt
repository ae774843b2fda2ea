-- ===== src/Syscall.antt =====
-- Kernel/interruptions/syscallHandler.c: the dispatch of the system calls, and the handlers that do
-- more than pass their arguments on. A word of 32 bits stands for a `semID`, which is an `int`.
pub mod Read
pub mod Table
pub mod Handlers
mod Tests
use tpe2_so.Base.{
  ℕ, zero, suc, ◌+◌, ◌%◌, ◌^◌, Bool, Option, none, some, List, ltb, ◌==◌, if◌then◌else◌, add32,
}
use tpe2_so.Scheduler
use tpe2_so.Scheduler.{Sched, add_fd, remove_fd, fd_local_to_global}
use tpe2_so.NamedPipe
use tpe2_so.NamedPipe.{Files, failed, opened, open_pipe, close_file, open_fifo, negative}
use tpe2_so.Pipe.{FdType}

abbrev pub sem_offset : ℕ
sem_offset = 10000

-- The test `<` of two `int`s.
abbrev pub int_lt : ℕ → ℕ → Bool
int_lt a b = ltb ((a + 2 ^ 31) % 2 ^ 32) ((b + 2 ^ 31) % 2 ^ 32)

-- What the four semaphore handlers do with the number that the caller gives; `none` is their -1.
pub kernel_sem : ℕ → Option ℕ
kernel_sem id =
    let k : ℕ = add32 id sem_offset in if int_lt (add32 k sem_offset) k then none else some k

-- The state of the handlers that deal with files: the processes and the files.
pub record System : Type 0 where
  pub sched : Sched
  pub files : Files

-- `sys_openPipe_handler`, given what `alloc` returns; the result, or the two descriptors.
pub sys_open_pipe : ℕ → System → System × Option (ℕ × ℕ) × List NamedPipe.Call
sys_open_pipe a s = elim (open_pipe a s.files) [
  | failed f calls ↦ (record s { files = f }, none, calls)
  | opened f r w calls ↦
      (record { sched = add_fd (add_fd s.sched r) w; files = f }, some (r, w), calls)
]

-- `sys_close_handler`.
pub sys_close : ℕ → System → System × ℕ × List NamedPipe.Call
sys_close local s =
    let fd : ℕ = fd_local_to_global s.sched local in
    let r = close_file s.files fd in
    let s1 : System = record s { files = r.0 } in
    if negative r.1 then (s1, r.1, r.2) else (record s1 { sched = remove_fd s.sched fd }, r.1, r.2)

-- `sys_openFifo_handler`.
pub sys_open_fifo : ℕ → FdType → System → System × ℕ
sys_open_fifo id type s =
    let r = open_fifo id type s.files in
    let s1 : System = record s { files = r.0 } in
    if negative r.1 then (s1, r.1) else (record s1 { sched = add_fd s.sched r.1 }, r.1)
