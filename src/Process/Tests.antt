-- ===== src/Process/Tests.antt =====
-- A process with two arguments.
use tpe2_so.Base.{
  ℕ, ◌+◌, ◌%◌, ◌≤◌, ◌++◌, ◌≡◌, refl, some, false, List, [], ◌∷◌, arith, ◌==◌, if◌then◌else◌,
}
use tpe2_so.Pipe.{read}
use tpe2_so.Fd.{Table}
use tpe2_so.Scheduler.{Sched, Pcb, ready, background, null}
use tpe2_so.Scheduler.Descriptors.{run_calls, freed, entries}
use tpe2_so.Scheduler.Ring.{IsRing}
use tpe2_so.Process.{
  frame_size, load, build, Image, shell_fd, Creator, Created, process_create, no_pid,
}
use tpe2_so.Process.Creating.{process_create-IsRing, process_create-leaks}
use tpe2_so.Process.Arguments.{ReadsArgs, build-ReadsArgs}

-- "ps" and "&"
abbrev args : List (List ℕ)
args = (b'p' ∷ b's' ∷ []) ∷ (b'&' ∷ []) ∷ []

abbrev made : Image
made = build 4194304 args 0x50000 (λ x. 255)

build-ReadsArgs_example :
    (0x50000 ≤ made.regs)
    × (made.regs + frame_size ≤ load 8 (made.regs + 64) made.memory)
    × (load 8 (made.regs + 120) made.memory ≡ 4194304)
    × (load 8 (made.regs + 128) made.memory ≡ 8)
    × (load 8 (made.regs + 136) made.memory ≡ 0x202)
    × (load 8 (made.regs + 144) made.memory % 8 ≡ 0)
    × (load 8 (made.regs + 72) made.memory ≡ 2)
    × ReadsArgs made.memory (load 8 (made.regs + 64) made.memory) args
build-ReadsArgs_example =
    build-ReadsArgs 4194304 args 0x50000 (λ x. 255) (omega arith) (omega arith) (omega arith)
      (omega arith)

-- Process 1 at node 16, alone in the ring, with the descriptors of the shell.
abbrev shell : Pcb
shell = record {
  pid = 1;
  state = ready;
  rsp = 2000;
  mem_start = 1000;
  priority = 2;
  background = background;
  fd = shell_fd;
}

abbrev alone : Sched
alone = record {
  next = λ x. 16;
  prev = λ x. 16;
  pcb = λ x. shell;
  priority_counter = λ x. 2;
  current = 16;
  counter = 1;
  first = null;
  halt_rsp = 1;
  halt = false;
  first_time = false;
}

alone-IsRing : IsRing alone (16 ∷ [])
alone-IsRing = record {
  count = refl;
  some_node = λ e. cc;
  leads = (refl, refl);
  back = (refl, tt);
  distinct = (tt, tt);
  real = (omega arith, tt);
}

abbrev second : Creator
second = record { pid = 2; fd = shell_fd }

abbrev created : ℕ → Created
created node = process_create 4194304 args 0x50000 node second alone (λ x. 255)

process_create-IsRing_example :
    ((created 32).result ≡ 2)
    × ((created 32).creator.pid ≡ 3)
    × ((created 32).image ≡ some made)
    × (((created 32).sched.pcb 32).pid ≡ 2)
    × (((created 32).sched.pcb 32).state ≡ ready)
    × (((created 32).sched.pcb 32).rsp ≡ made.regs)
    × (((created 32).sched.pcb 32).mem_start ≡ 0x50000)
    × IsRing (created 32).sched ((16 ∷ []) ++ (32 ∷ []))
process_create-IsRing_example =
    process_create-IsRing 4194304 args 0x50000 32 second alone (λ x. 255) [] (omega arith)
      (omega arith) (omega arith) (omega arith) alone-IsRing (omega arith)

-- Process 3 runs, with descriptor 3 open beside the standard ones; every descriptor has two references.
abbrev busy : Sched
busy = record alone {
  pcb = λ x. record shell { pid = 3; fd = λ i. if i == 3 then 3 else shell_fd i };
}

abbrev fourth : Creator
fourth = record { pid = 4; fd = shell_fd }

abbrev files : Table
files d = record { ref = 2; type = read; pipe = 0x900010 }

abbrev lost : Created
lost = process_create 4194304 args 0x50000 0 fourth busy (λ x. 255)

abbrev entries_of_3 : ℕ
entries_of_3 = entries 255 0 (busy.pcb busy.current).fd 3

one_entry : entries_of_3 ≡ 1
unfolding entries
one_entry = refl

process_create-leaks_example :
    (lost.result ≡ no_pid)
    × (lost.sched ≡ busy)
    × (lost.creator.pid ≡ 5)
    × (freed lost.calls ≡ 0x50000 ∷ [])
    × ((run_calls lost.calls files 3).ref ≡ 2 + entries_of_3)
process_create-leaks_example =
    process_create-leaks 4194304 args 0x50000 fourth busy (λ x. 255) files 3 (omega arith)
      (omega arith) (omega arith) (omega arith) (omega arith) (omega (arith, one_entry))
