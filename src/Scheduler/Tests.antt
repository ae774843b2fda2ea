-- ===== src/Scheduler/Tests.antt =====
-- The scheduler with two ready processes, and with one that has blocked.
use tpe2_so.Base.{
  ℕ, ◌+◌, ◌≡◌, refl, true, false, List, [], ◌∷◌, ◌++◌, some, arith, ◌==◌, ◌||◌, if◌then◌else◌,
  sub64,
}
use tpe2_so.Scheduler.{
  Sched, Pcb, ready, blocked, terminated, background, null, add_process, Call, minus_one,
}
use tpe2_so.Scheduler.Ring.{IsRing}
use tpe2_so.Scheduler.Insert.{add_process-IsRing}
use tpe2_so.Scheduler.Ops.{pick, resumes, block_process, unblock_process}
use tpe2_so.Scheduler.Lists.{IsWaiting, Processes, Processes-same}
use tpe2_so.Scheduler.Block.{block_process-Processes}
use tpe2_so.Scheduler.Unblock.{unblock_process-Processes}
use tpe2_so.Pipe.{read}
use tpe2_so.Fd.{Table}
use tpe2_so.Scheduler.Descriptors.{run_calls, freed, entries}
use tpe2_so.Scheduler.Ending.{pick-ends}
use tpe2_so.Scheduler.Turns.{Ticks, turns-reach}
use tpe2_so.Scheduler.Switch.{pick-blocks}
use tpe2_so.Scheduler.Quantum.{pick-rotates, pick-null_write}

abbrev process : ℕ → Pcb
process n = record {
  pid = n;
  state = ready;
  rsp = 1000 + n;
  mem_start = 0;
  priority = 2;
  background = background;
  fd = λ i. i;
}

-- Nodes 16 and 32 with processes 1 and 2; process 1 is running, with `turns` left.
abbrev two_ready : ℕ → Sched
two_ready turns = record {
  next = λ x. if x == 16 then 32 else 16;
  prev = λ x. if x == 16 then 32 else 16;
  pcb = λ x. if x == 16 then process 1 else process 2;
  priority_counter = λ x. if x == 16 then turns else 2;
  current = 16;
  counter = 2;
  first = null;
  halt_rsp = 1;
  halt = false;
  first_time = false;
}

two_ready-IsRing : (turns : ℕ) → IsRing (two_ready turns) (16 ∷ 32 ∷ [])
two_ready-IsRing turns = record {
  count = refl;
  some_node = λ e. cc;
  leads = (refl, (refl, refl));
  back = (refl, (refl, tt));
  distinct = ((omega arith, tt), (tt, tt));
  real = (omega arith, (omega arith, tt));
}

-- One process, which has blocked.
abbrev one_blocked : Sched
one_blocked = record (two_ready 1) {
  next = λ x. 16;
  prev = λ x. 16;
  pcb = λ x. record (process 1) { state = blocked };
  counter = 1;
}

one_blocked-IsRing : IsRing one_blocked (16 ∷ [])
one_blocked-IsRing = record {
  count = refl;
  some_node = λ e. cc;
  leads = (refl, refl);
  back = (refl, tt);
  distinct = (tt, tt);
  real = (omega arith, tt);
}

add_process-IsRing_example :
    ((add_process (two_ready 1) 48 (process 3)).1 ≡ 0)
    × ((add_process (two_ready 1) 48 (process 3)).0.current ≡ 16)
    × ((add_process (two_ready 1) 48 (process 3)).0.pcb 48 ≡ process 3)
    × ((add_process (two_ready 1) 48 (process 3)).0.priority_counter 48 ≡ 2)
    × IsRing (add_process (two_ready 1) 48 (process 3)).0 ((16 ∷ 32 ∷ []) ++ (48 ∷ []))
add_process-IsRing_example =
    add_process-IsRing (two_ready 1) 48 (process 3) (32 ∷ []) (omega arith) (omega arith)
      (two_ready-IsRing 1) (omega arith)

pick-rotates_example :
    (t : Sched) × (pick (two_ready 0) ≡ resumes t 1002 [])
    × (t.current ≡ 32)
    × IsRing t ((32 ∷ []) ++ (16 ∷ []))
    × (t.priority_counter 32 ≡ 1)
    × (t.priority_counter 16 ≡ 2)
pick-rotates_example =
    pick-rotates (two_ready 0) 32 1 [] (two_ready-IsRing 0) refl refl refl (omega arith)

pick-null_write_example :
    (t : Sched) × (calls : List Call) × (pick one_blocked ≡ resumes t 1 calls)
    × (t.current ≡ null)
    × (t.halt ≡ true)
    × (t.priority_counter null ≡ sub64 2 1)
pick-null_write_example = pick-null_write one_blocked one_blocked-IsRing refl

nobody_waits : (s : Sched) → s.first ≡ null → IsWaiting s []
nobody_waits s e = record { leads = e; linked = tt; distinct = tt; real = tt }

two_ready-Processes : Processes (two_ready 1) (16 ∷ 32 ∷ []) []
two_ready-Processes = record {
  ready = two_ready-IsRing 1;
  waiting = nobody_waits (two_ready 1) refl;
  disjoint = tt;
}

block_process-Processes_example :
    ((block_process (two_ready 1) 2).1 ≡ 0)
    × ((block_process (two_ready 1) 2).2 ≡ [])
    × Processes (block_process (two_ready 1) 2).0 (16 ∷ []) (32 ∷ [])
block_process-Processes_example =
    block_process-Processes (two_ready 1) 16 [] 32 [] [] 2 (omega arith) two_ready-Processes
      (omega arith, tt) refl

-- Process 1 is ready, and process 2 is blocked.
abbrev one_waits : Sched
one_waits = record (two_ready 1) {
  next = λ x. if x == 16 then 16 else null;
  prev = λ x. if x == 16 then 16 else null;
  counter = 1;
  first = 32;
}

one_waits-Processes : Processes one_waits (16 ∷ []) (32 ∷ [])
one_waits-Processes = record {
  ready = record {
    count = refl;
    some_node = λ e. cc;
    leads = (refl, refl);
    back = (refl, tt);
    distinct = (tt, tt);
    real = (omega arith, tt);
  };
  waiting = record {
    leads = (refl, refl);
    linked = tt;
    distinct = (tt, tt);
    real = (omega arith, tt);
  };
  disjoint = ((omega arith, tt), tt);
}

unblock_process-Processes_example :
    (t : Sched) × (unblock_process 5 one_waits 2 ≡ some (t, 0)) × Processes t (16 ∷ 32 ∷ []) []
unblock_process-Processes_example =
    unblock_process-Processes 5 one_waits (16 ∷ []) [] 32 [] 2 (omega arith) one_waits-Processes tt
      refl

-- Process 1 has blocked itself, and process 2 is ready.
abbrev one_leaves : Sched
one_leaves = record (two_ready 1) {
  pcb = λ x. if x == 16 then record (process 1) { state = blocked } else process 2;
}

pick-blocks_example :
    (t : Sched) × (pick one_leaves ≡ resumes t 1002 [])
    × (t.priority_counter 32 ≡ sub64 2 1)
    × Processes t (32 ∷ []) (16 ∷ [])
pick-blocks_example =
    pick-blocks one_leaves 16 32 [] [] (omega arith)
      (Processes-same (two_ready 1) one_leaves (16 ∷ 32 ∷ []) [] refl refl refl refl refl
        two_ready-Processes)
      refl

turns-reach_example :
    (t : Sched) × Ticks (two_ready 1) 2 t × (t.current ≡ 32) × IsRing t (32 ∷ 16 ∷ [])
turns-reach_example =
    turns-reach (two_ready 1) [] 32 [] (two_ready-IsRing 1) refl (omega arith) tt
      (refl, omega arith, omega arith)

-- Process 1 has ended, and process 2 is ready.
-- Its entries 5 and 7 stand for descriptor 9, the others for none.
abbrev two_entries : ℕ → ℕ
two_entries i = if i == 5 || i == 7 then 9 else minus_one

abbrev one_ends : Sched
one_ends = record (two_ready 1) {
  pcb = λ x.
      if x == 16 then record (process 1) { state = terminated; fd = two_entries } else process 2;
}

-- Every descriptor has three references.
abbrev shared : Table
shared d = record { ref = 3; type = read; pipe = 0x900010 }

two_entries_count : entries 252 3 two_entries 9 ≡ 2
unfolding entries
two_entries_count = refl

pick-ends_example :
    (t : Sched) × (calls : List Call) × (pick one_ends ≡ resumes t 1002 calls)
    × (t.priority_counter 32 ≡ sub64 2 1)
    × Processes t (32 ∷ []) []
    × (freed calls ≡ 0 ∷ 16 ∷ [])
    × ((run_calls calls shared 9).ref + entries 252 3 two_entries 9 ≡ 3)
pick-ends_example =
    pick-ends one_ends 16 32 [] [] shared 9 (omega arith)
      (Processes-same (two_ready 1) one_ends (16 ∷ 32 ∷ []) [] refl refl refl refl refl
        two_ready-Processes)
      refl (omega arith) (omega arith) (omega (arith, two_entries_count))
