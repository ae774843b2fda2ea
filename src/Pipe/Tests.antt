-- ===== src/Pipe/Tests.antt =====
-- Pipes at concrete states.
use tpe2_so.Base.{◌-◌, ◌^◌, ◌≡◌, refl, true, [], ◌∷◌, arith}
use tpe2_so.Pipe.{
  Pipe, write_loop, write_pipe, read_pipe, read_resume, copy_out, read_done, sem_post,
}
use tpe2_so.Pipe.Fifo.{IsValid, contents, window}
use tpe2_so.Pipe.Transfer.{Wrote, write_loop-Wrote, Copied, copy_out-Copied}
use tpe2_so.Pipe.RoundTrip.{write_pipe-read_pipe, Carries, read_pipe-keeps_lock, NotPosted}

-- An empty pipe whose indices are about to wrap.
abbrev fresh : Pipe
fresh = record {
  buf = λ i. 7;
  read_idx = 2 ^ 32 - 1;
  write_idx = 2 ^ 32 - 1;
  read_open = true;
  write_open = true;
  read_pid = 0;
  write_pid = 0;
  write_queue = 0;
  read_queue = 1;
  read_fd = 3;
  write_fd = 4;
}

fresh-IsValid : IsValid fresh
fresh-IsValid = omega arith

-- A pipe that holds the bytes 7 and 7.
abbrev two_bytes : Pipe
two_bytes = record fresh { write_idx = 1 }

two_bytes-IsValid : IsValid two_bytes
two_bytes-IsValid = omega arith

write_loop-Wrote_example : Wrote fresh (1 ∷ 2 ∷ []) (write_loop fresh 5 (1 ∷ 2 ∷ []))
write_loop-Wrote_example = write_loop-Wrote fresh 5 (1 ∷ 2 ∷ []) fresh-IsValid refl

copy_out-Copied_example : Copied two_bytes 1 (copy_out 1 two_bytes)
copy_out-Copied_example = copy_out-Copied 1 two_bytes two_bytes-IsValid

fresh-empty : contents fresh ≡ []
unfolding contents window
fresh-empty = refl

write_pipe-read_pipe_example : Carries (1 ∷ 2 ∷ []) 6 10 (write_pipe fresh 5 (1 ∷ 2 ∷ []))
write_pipe-read_pipe_example =
    write_pipe-read_pipe fresh 5 6 10 (1 ∷ 2 ∷ []) fresh-IsValid refl refl fresh-empty (λ e. cc)
      (omega arith) (omega arith) (omega arith)

read_one :
    read_pipe two_bytes 6 1
    ≡ read_done (record two_bytes { read_idx = 0 }) (7 ∷ []) (sem_post 0 ∷ [])
unfolding read_pipe read_resume copy_out
read_one = refl

read_pipe-keeps_lock_example : NotPosted 1 (sem_post 0 ∷ [])
read_pipe-keeps_lock_example =
    read_pipe-keeps_lock two_bytes (record two_bytes { read_idx = 0 }) 6 1 (7 ∷ [])
      (sem_post 0 ∷ []) read_one (omega arith)
