-- ===== src/Syscall/Tests.antt =====
-- The system calls at concrete states.
use tpe2_so.Base.{
  ℕ, ◌-◌, ◌^◌, ◌≡◌, refl, false, true, some, List, [], ◌∷◌, ◌++◌, map, arith, ◌==◌, if◌then◌else◌,
}
use tpe2_so.Scheduler.{Pcb, State, Background, fd_local_to_global}
use tpe2_so.Pipe.{read}
use tpe2_so.Fd.{init_fd, init_from, close_fd}
use tpe2_so.NamedPipe.{open_pipe, close_file}
use tpe2_so.NamedPipe.Creation.{OpenedPipe}
use tpe2_so.Syscall.{System, sys_open_pipe, sys_close}
use tpe2_so.Syscall.Table.{Handler, dispatch, syscalls}
use tpe2_so.Syscall.Read.{
  stdin, sem_read, Terminal, sys_read_handler, terminal, sem_open, sem_wait, sem_post,
}
use tpe2_so.Syscall.Read.Line.{Entered, edited, foreground, sys_read_handler-Entered}
use tpe2_so.Syscall.Handlers.{sys_close-keeps_local, sys_open_pipe-Opened}

-- The keys l, x, backspace, s.
abbrev keys : List ℕ
keys = 108 ∷ 120 ∷ 8 ∷ 115 ∷ []

sample_line : edited [] keys ≡ 108 ∷ 115 ∷ []
sample_line = refl

sys_read_handler-Entered_example :
    (out : Terminal) × (sys_read_handler stdin 1 false false
        (map foreground keys ++ (foreground 10 ∷ []))
        (λ i. 0)
        50
      ≡ terminal (sem_open sem_read 1 ∷ sem_wait sem_read ∷ []) out (sem_post sem_read ∷ []))
    × Entered (edited [] keys) out
sys_read_handler-Entered_example =
    sys_read_handler-Entered 1 50 keys [] (λ i. 0) (omega arith) (omega arith)

last_call : dispatch syscalls 36 ≡ some Handler.getbackground
unfolding dispatch
last_call = refl

-- The shell, whose standard input is descriptor 5, the read end of a pipe with another reference.
abbrev shell : Pcb
shell = record {
  pid = 1;
  state = State.ready;
  rsp = 0;
  mem_start = 0;
  priority = 1;
  background = Background.foreground;
  fd = λ i. if i == 0 then 5 else (if i == 5 then 5 else 2 ^ 64 - 1);
}

abbrev system : System
system = record {
  sched = record {
    next = λ a. 16;
    prev = λ a. 16;
    pcb = λ a. shell;
    priority_counter = λ a. 1;
    current = 16;
    counter = 1;
    first = 0;
    halt_rsp = 64;
    halt = false;
    first_time = false;
  };
  files = record {
    fds = λ i.
        if i == 5
        then record { ref = 2; type = read; pipe = 64 }
        else record { ref = 0; type = read; pipe = 0 };
    pipes = λ a. record {
      buf = λ i. 0;
      read_idx = 0;
      write_idx = 0;
      read_open = true;
      write_open = true;
      read_pid = 0;
      write_pid = 0;
      write_queue = 0;
      read_queue = 1;
      read_fd = 5;
      write_fd = 6;
    };
    pipe_table = λ i. 0;
    sem_counter = 2;
    fifos = λ i. record { id = 0; read_fd = 0; write_fd = 0 };
  };
}

sys_close-keeps_local_example :
    (fd_local_to_global (sys_close 0 system).0.sched 0 ≡ 5)
    × (fd_local_to_global (sys_close 0 system).0.sched 5 ≡ 2 ^ 64 - 1)
unfolding fd_local_to_global close_file close_fd
sys_close-keeps_local_example =
    sys_close-keeps_local 0 5 system refl (omega arith) (omega arith) refl

opens : (sys_open_pipe 128 system).1 ≡ some (3, 4)
unfolding sys_open_pipe open_pipe init_fd init_from
opens = refl

sys_open_pipe-Opened_example :
    OpenedPipe system.files (sys_open_pipe 128 system).0.files 128 3 4
    × ((x : ℕ)
        → fd_local_to_global (sys_open_pipe 128 system).0.sched x
          ≡ (if x == 4 then 4 else (if x == 3 then 3 else fd_local_to_global system.sched x)))
sys_open_pipe-Opened_example = sys_open_pipe-Opened 128 3 4 system opens
