-- ===== src/NamedPipe/Tests.antt =====
-- Named pipes at concrete tables.
use tpe2_so.Base.{ℕ, ◌<◌, ◌≡◌, ◌≢◌, refl, false, List, [], ◌∷◌, arith, ◌==◌, if◌then◌else◌, update}
use tpe2_so.Pipe.{Pipe, FdType, read}
use tpe2_so.Fd.{Fd, minus_one, init_fd, init_from, close_fd}
use tpe2_so.NamedPipe.{
  Files, Opening, Call, sem_open, free, opened, failed, open_pipe, mk_fifo, open_fifo, rm_fifo,
  max_fifo, find_fifo, clear_fifo, close_file,
}
use tpe2_so.NamedPipe.Names.{Distinct}
use tpe2_so.NamedPipe.Creation.{OpenedPipe, one_ref, open_pipe-OpenedPipe, open_pipe-leaks}
use tpe2_so.NamedPipe.Removing.{rm_fifo-open_fifo}

abbrev no_pipe : Pipe
no_pipe = record {
  buf = λ i. 0;
  read_idx = 0;
  write_idx = 0;
  read_open = false;
  write_open = false;
  read_pid = 0;
  write_pid = 0;
  write_queue = 0;
  read_queue = 0;
  read_fd = 0;
  write_fd = 0;
}

abbrev no_fd : Fd
no_fd = record { ref = 0; type = read; pipe = 0 }

abbrev start : Files
start = record {
  fds = λ i. no_fd;
  pipes = λ a. no_pipe;
  pipe_table = λ i. 0;
  sem_counter = 0;
  fifos = λ i. record { id = 0; read_fd = 0; write_fd = 0 };
}

abbrev block : ℕ
block = 0x900010

start-Distinct : Distinct start.fifos
start-Distinct = record { apart = λ i j hi hj nz e. absurd (nz refl) }

abbrev files_of : Opening → Files
files_of (opened t r w calls) = t
files_of (failed t calls) = t

abbrev two_semaphores : List Call
two_semaphores = sem_open 0 1 ∷ sem_open 1 1 ∷ []

abbrev with_pipe : Files
with_pipe = files_of (open_pipe block start)

open_pipe_runs : open_pipe block start ≡ opened with_pipe 3 4 two_semaphores
unfolding open_pipe init_fd init_from
open_pipe_runs = refl

open_pipe-OpenedPipe_example : OpenedPipe start with_pipe block 3 4
open_pipe-OpenedPipe_example =
    open_pipe-OpenedPipe block start with_pipe 3 4 two_semaphores open_pipe_runs

-- All descriptors but 5 are in use.
abbrev crowded : Files
crowded = record start { fds = λ i. if i == 5 then no_fd else one_ref read 1 }

open_pipe-leaks_example :
    open_pipe block crowded
    ≡ failed (record crowded { fds = update crowded.fds 5 (one_ref read block) }) (free block ∷ [])
open_pipe-leaks_example =
    open_pipe-leaks block 5 crowded (omega arith) (omega arith) (omega arith) refl
      (λ m l h ne. ground arith)

abbrev named : Files
named = (mk_fifo 7 block start).0

-- A named pipe whose descriptors have been closed already.
abbrev lone : Files
lone = record start {
  fifos = λ i. if i == 2 then record { id = 7; read_fd = 3; write_fd = 4 } else start.fifos 0;
}

lone-Distinct : Distinct lone.fifos
lone-Distinct = record { apart = λ i j hi hj nz e. ground arith }

abbrev removed : Files
removed = (rm_fifo 7 lone).0

rm_fifo_runs : rm_fifo 7 lone ≡ (removed, 0, [])
unfolding rm_fifo find_fifo clear_fifo close_file close_fd
rm_fifo_runs = refl

rm_fifo-open_fifo_example :
    ((type : FdType) → open_fifo 7 type removed ≡ (removed, minus_one))
    × ((m : ℕ) → m < max_fifo → (lone.fifos m).id ≢ 7 → removed.fifos m ≡ lone.fifos m)
    × Distinct removed.fifos
rm_fifo-open_fifo_example = rm_fifo-open_fifo 7 lone removed [] lone-Distinct rm_fifo_runs
