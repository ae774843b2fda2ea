-- ===== src/Process/Creating.antt =====
-- `processCreate` with the scheduler.
use tpe2_so.Base.{
  ℕ, ◌+◌, ◌^◌, ◌<◌, ◌≡◌, ◌≢◌, refl, some, List, [], ◌∷◌, ◌++◌, arith, ne→==, ap, ◌==◌, true, false,
  ltb, lt→ltb,
}
use tpe2_so.Strings.{Text}
use tpe2_so.Fd.{Table, max_fd}
use tpe2_so.Scheduler.{Sched, Pcb, Call, ready, free}
use tpe2_so.Scheduler.Ops.{fork_fd, dup_from}
use tpe2_so.Scheduler.Descriptors.{run_calls, freed, entries, dup_from-ref, dup_from-freed}
use tpe2_so.Scheduler.Ring.{NotIn, IsRing}
use tpe2_so.Scheduler.Insert.{add_process-IsRing, add_process-none}
use tpe2_so.Process.{Creator, build, choose_fd, process_create, no_pid, pcb_of}

-- Where both allocations succeed and the number is not 0 nor the last of the words: the new process
-- has this number, which is the result, and the next process gets the one after it. The process is
-- placed behind every process of the ring; it is ready, and starts with the registers that were
-- written into its memory.
pub process_create-IsRing :
    (program : ℕ) (args : List (List ℕ)) (mem_start node : ℕ) (c : Creator) (s : Sched)
    (memory : Text) (xs : List ℕ)
    → mem_start ≢ 0
    → node ≢ 0
    → c.pid ≢ 0
    → c.pid + 1 < 2 ^ 32
    → IsRing s (s.current ∷ xs)
    → NotIn node (s.current ∷ xs)
    → let r = process_create program args mem_start node c s memory in
      let p = build program args mem_start memory in
      (r.result ≡ c.pid)
      × (r.creator.pid ≡ c.pid + 1)
      × (r.image ≡ some p)
      × ((r.sched.pcb node).pid ≡ c.pid)
      × ((r.sched.pcb node).state ≡ ready)
      × ((r.sched.pcb node).rsp ≡ p.regs)
      × ((r.sched.pcb node).mem_start ≡ mem_start)
      × IsRing r.sched ((s.current ∷ xs) ++ (node ∷ []))
unfolding process_create
process_create-IsRing program args mem_start node c s memory xs got got_node user small r fresh =
    let b = pcb_of c s mem_start (build program args mem_start memory) in
    let (zero_result, same, holds, turns, ring) =
      add_process-IsRing s node b xs user got_node r fresh in
    rw (ne→== mem_start 0 got, zero_result)
      (
        refl,
        omega arith,
        refl,
        ap (λ (q : Pcb). q.pid) holds,
        ap (λ (q : Pcb). q.state) holds,
        ap (λ (q : Pcb). q.rsp) holds,
        ap (λ (q : Pcb). q.mem_start) holds,
        ring,
      )

choose_fd-forks :
    (c : Creator) (s : Sched)
    → 1 < c.pid
    → c.pid < 2 ^ 31
    → (choose_fd c s).1 ≡ dup_from 255 0 (s.pcb s.current).fd
unfolding choose_fd fork_fd
choose_fd-forks c s user small =
    let other : (c.pid == 1) ≡ false = ne→== c.pid 1 (λ e. omega arith) in
    let above : ltb 1 c.pid ≡ true = lt→ltb 1 c.pid user in
    let below : ltb c.pid (2 ^ 31) ≡ true = lt→ltb c.pid (2 ^ 31) small in
    rw (other, above, below) refl

-- Where there is no memory for the node of a process with a number above 1 that is no negative `int`:
-- the result is -1, the memory of the process is the one block that is given back, and the processes
-- are as before. But the number is used up, and the calls, run on the table of open files, leave each
-- descriptor with as many more references as entries of the current process stand for it. (The
-- descriptor is below 255 and in use, and its references stay below 2 ^ 64.)
pub process_create-leaks :
    (program : ℕ) (args : List (List ℕ)) (mem_start : ℕ) (c : Creator) (s : Sched) (memory : Text)
    (files : Table) (d : ℕ)
    → mem_start ≢ 0
    → 1 < c.pid
    → c.pid < 2 ^ 31
    → d < max_fd
    → (files d).ref ≢ 0
    → (files d).ref + entries 255 0 (s.pcb s.current).fd d < 2 ^ 64
    → let r = process_create program args mem_start 0 c s memory in
      (r.result ≡ no_pid)
      × (r.sched ≡ s)
      × (r.creator.pid ≡ c.pid + 1)
      × (freed r.calls ≡ mem_start ∷ [])
      × ((run_calls r.calls files d).ref ≡ (files d).ref + entries 255 0 (s.pcb s.current).fd d)
unfolding process_create freed run_calls
process_create-leaks program args mem_start c s memory files d got user small h used word =
    let b = pcb_of c s mem_start (build program args mem_start memory) in
    let frees : List Call = free mem_start ∷ [] in
    let (u, after, count) = dup_from-ref 255 0 (s.pcb s.current).fd d files frees h used word in
    rw
      (
        ne→== mem_start 0 got,
        add_process-none s b (λ e. omega arith),
        choose_fd-forks c s user small,
      )
      (refl, refl, omega arith, dup_from-freed 255 0 (s.pcb s.current).fd frees, rw after count)
