-- ===== src/Pipe.antt =====
-- Kernel/pipe/pipe.c: pipes. A call that blocks ends with the state in which the process sleeps;
-- what it asks of the scheduler and the semaphores is listed in order.
pub mod Fifo
pub mod Transfer
pub mod RoundTrip
mod Tests
use tpe2_so.Base.{
  ℕ, zero, suc, ◌+◌, ◌-◌, ◌%◌, ◌^◌, Bool, true, false, not, ◌&&◌, ◌||◌, List, [], ◌∷◌, ◌++◌, ltb,
  ◌==◌, if◌then◌else◌, add32, update,
}

abbrev pub pipe_buffer : ℕ
pipe_buffer = 4096

-- The char -1, as a byte.
abbrev pub eof : ℕ
eof = 255

-- `enum fdType`.
pub data FdType : Type 0 where
  read write : FdType

-- `struct Pipe`. The buffer is a function of the index, which is always taken `% pipe_buffer`.
pub record Pipe : Type 0 where
  pub buf : ℕ → ℕ
  pub read_idx : ℕ
  pub write_idx : ℕ
  pub read_open : Bool
  pub write_open : Bool
  pub read_pid : ℕ
  pub write_pid : ℕ
  pub write_queue : ℕ
  pub read_queue : ℕ
  pub read_fd : ℕ
  pub write_fd : ℕ

-- What a pipe asks of the other components.
pub data Call : Type 0 where
  sem_wait sem_post delete_semaphore : ℕ → Call
  block unblock : ℕ → Call

-- `if (pid) unblockProcess(pid);`
abbrev pub wake : ℕ → List Call
wake pid = if pid == 0 then [] else unblock pid ∷ []

-- The copying loop of `readPipe`: the bytes that go to the caller's buffer.
pub copy_out : ℕ → Pipe → Pipe × List ℕ
copy_out zero p = (p, [])
copy_out (suc n) p =
    let rest = copy_out n (record p { read_idx = add32 p.read_idx 1 }) in
    let b : ℕ = p.buf (p.read_idx % pipe_buffer) in
    let next : Pipe × List ℕ = (rest.0, b ∷ rest.1) in
    if p.read_idx == p.write_idx || b == eof then (p, []) else next

pub data ReadResult : Type 0 where
  read_refused : ReadResult
  read_nothing : Pipe → List Call → ReadResult
  read_blocks : Pipe → List Call → ReadResult
  read_done : Pipe → List ℕ → List Call → ReadResult

-- `readPipe` from the test of its waiting loop on: also where a process that slept goes on.
pub read_resume : Pipe → ℕ → ReadResult
read_resume p count =
    if p.read_idx == p.write_idx
    then (if p.read_pid == 0
        then read_nothing p (sem_post p.read_queue ∷ [])
        else read_blocks p (block p.read_pid ∷ []))
    else (let done = copy_out count (record p { read_pid = 0 }) in
        read_done done.0 done.1 (wake done.0.write_pid ++ (sem_post done.0.write_pid ∷ [])))

-- `readPipe` from its entry, once `semWait` has returned. `pid` is the caller.
pub read_pipe : Pipe → ℕ → ℕ → ReadResult
read_pipe p pid count =
    if not p.read_open then read_refused else read_resume (record p { read_pid = pid }) count

-- `pipe->buf[pipe->writeIdx++ % PIPE_BUFFER] = b`.
abbrev pub put : Pipe → ℕ → Pipe
put p b = record p {
  buf = update p.buf (p.write_idx % pipe_buffer) b;
  write_idx = add32 p.write_idx 1;
}

abbrev pub is_full : Pipe → Bool
is_full p = p.write_idx == add32 p.read_idx pipe_buffer

pub data WriteResult : Type 0 where
  write_refused : WriteResult
  write_broken : Pipe → List Call → WriteResult
  write_blocks : Pipe → List ℕ → List Call → WriteResult
  write_done : Pipe → List Call → WriteResult

-- The loop of `writePipe` over the bytes that are left; a process that slept goes on from here.
pub write_loop : Pipe → ℕ → List ℕ → WriteResult
write_loop p pid [] = write_done p (wake p.read_pid ++ (sem_post p.write_queue ∷ []))
write_loop p pid (b ∷ bs) =
    let on = write_loop (put (record p { write_pid = 0 }) b) pid bs in
    if is_full p
    then (if not p.read_open
        then write_broken (record p { write_pid = 0 }) (sem_post p.write_queue ∷ [])
        else write_blocks (record p { write_pid = pid }) (b ∷ bs)
            (wake p.read_pid ++ (block pid ∷ [])))
    else on

-- `writePipe` from its entry, once `semWait` has returned.
pub write_pipe : Pipe → ℕ → List ℕ → WriteResult
write_pipe p pid bytes =
    if not p.write_open || not p.read_open then write_refused else write_loop p pid bytes

-- The end of `closePipe`: a pipe with both ends closed gives its semaphores back and is freed.
pub release_pipe : Pipe → Pipe × Bool × List Call
release_pipe p =
    if not p.read_open && not p.write_open
    then (p, true, delete_semaphore p.read_queue ∷ delete_semaphore p.write_queue ∷ [])
    else (p, false, [])

-- `closePipe`: the pipe without that end, whether it was freed, and the calls.
pub close_pipe : Pipe → FdType → Pipe × Bool × List Call
close_pipe p read = release_pipe (record p { read_open = false })
close_pipe p write = release_pipe (put (record p { write_open = false }) eof)
