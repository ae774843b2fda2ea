-- ===== src/Scheduler/Ops.antt =====
-- Blocking, unblocking, ending and switching processes, in Kernel/Scheduler/scheduler.c.
use tpe2_so.Base.{
  ℕ, zero, suc, ◌+◌, ◌-◌, Bool, true, false, Option, some, List, [], ◌∷◌, ◌++◌, ltb, ◌==◌,
  if◌then◌else◌, sub64, ◌>>=◌,
}
use tpe2_so.Scheduler.{
  null, max_fd, minus_one, State, ready, blocked, terminated, Background, foreground, background,
  Pcb, Sched, Call, close_fd, free, int20, fd_dup, set_next, set_prev, set_pcb, set_counter,
  set_state, search_ready, search_block, set_background, unlink, unlink_blocked,
}

abbrev pub same_state : State → State → Bool
same_state ready ready = true
same_state blocked blocked = true
same_state terminated terminated = true
same_state _ _ = false

abbrev pub is_foreground : Background → Bool
is_foreground foreground = true
is_foreground background = false

-- The part of `removeBlocked` that takes the node out of the ring.
unfoldable pub leave_ready : Sched → ℕ → Sched
leave_ready s node =
    let cut : Sched = unlink s node in
    let s1 : Sched =
      if (s.pcb node).pid == (s.pcb s.current).pid
      then (if ltb 1 s.counter
          then record cut { current = cut.next cut.current }
          else record s { current = null })
      else cut in
    record s1 { counter = sub64 s1.counter 1 }

-- The part that puts it to the front of the blocked list.
unfoldable pub enter_blocked : Sched → ℕ → Sched
enter_blocked s node =
    let s1 : Sched = set_prev (set_next s node null) node null in
    let s2 : Sched = set_counter s1 node (s1.pcb node).priority in
    let s3 : Sched = set_prev (set_next s2 node s2.first) s2.first node in
    if s2.first == null then record s2 { first = node } else record s3 { first = node }

-- `removeBlocked`.
unfoldable pub remove_blocked : Sched → ℕ → Sched
remove_blocked s node = enter_blocked (leave_ready s node) node

unfoldable pub block_process : Sched → ℕ → Sched × ℕ × List Call
block_process s pid =
    let node : ℕ = search_ready s pid in
    if (s.pcb s.current).pid == pid
    then (set_state s s.current blocked, 0, int20 ∷ [])
    else if node == null
    then (s, minus_one, [])
    else (remove_blocked (set_state s node blocked) node, 0, [])

-- The part of `unblockProcess` that takes the node off the blocked list.
unfoldable pub leave_blocked : Sched → ℕ → Sched
leave_blocked s node =
    let s1 : Sched = record s { first = s.next s.first } in
    let head : Sched = if s1.first == null then s1 else set_prev s1 s1.first null in
    if (s.pcb node).pid == (s.pcb s.first).pid then head else unlink_blocked s node

-- The part that puts it into the ring, behind the current process.
unfoldable pub enter_ready : Sched → ℕ → Sched
enter_ready s node =
    let alone : Sched = record (set_prev (set_next s node node) node node) { current = node } in
    let s1 : Sched = set_prev s node s.current in
    let s2 : Sched = set_next s1 node (s1.next s1.current) in
    let s3 : Sched = set_prev s2 (s2.next s2.current) node in
    let behind : Sched = set_next s3 s3.current node in
    let s4 : Sched = if s.counter == 0 then alone else behind in
    record s4 { counter = s4.counter + 1 }

unfoldable pub unblock_process : ℕ → Sched → ℕ → Option (Sched × ℕ)
unblock_process fuel s pid = do
  node ← search_block fuel s pid
  some (
      if node == null
      then (s, minus_one)
      else (enter_ready (leave_blocked (set_state s node ready) node) node, 0))

-- The calls of `closeFd` for the descriptors from `i` on.
unfoldable pub close_from : ℕ → ℕ → (ℕ → ℕ) → List Call
close_from zero i fd = []
close_from (suc k) i fd = close_fd (fd i) ∷ close_from k (i + 1) fd

-- `removeTerminated`. Where the first blocked process ends, the test of the source is `== NULL`.
unfoldable pub remove_terminated : Sched → ℕ → Sched × List Call
remove_terminated s node =
    let cur : Sched = unlink s s.current in
    let s1 : Sched = record s { first = s.next s.first } in
    let head : Sched = if s1.first == null then set_prev s1 s1.first null else s1 in
    let one_less : Sched → Sched = λ t. record t { counter = sub64 t.counter 1 } in
    let s2 : Sched =
      if (s.pcb node).pid == (s.pcb s.current).pid
      then (if ltb 1 s.counter
          then one_less (record cur { current = cur.next cur.current })
          else one_less (record s { current = null }))
      else if same_state (s.pcb node).state blocked
      then (if (s.pcb node).pid == (s.pcb s.first).pid then head else unlink_blocked s node)
      else one_less (unlink s node) in
    let b : Pcb = s.pcb node in
    (s2, close_from (max_fd - 3) 3 b.fd ++ (free b.mem_start ∷ free node ∷ []))

-- The shell, process 1, comes to the foreground when a foreground process ends.
unfoldable pub raise_shell : ℕ → Sched → ℕ → Option Sched
raise_shell fuel s node =
    if is_foreground (s.pcb node).background
    then (do r ← set_background fuel s 1 foreground; r' ← unblock_process fuel r.0 1; some r'.0)
    else some s

-- The three branches of `terminateProcess`: the current process, a ready one, a blocked one.
unfoldable pub terminate_current : ℕ → Sched → Option (Sched × ℕ × List Call)
terminate_current fuel s = do
  s1 ← raise_shell fuel (set_state s s.current terminated) s.current
  some (s1, 0, int20 ∷ [])

unfoldable pub terminate_ready : ℕ → Sched → ℕ → Option (Sched × ℕ × List Call)
terminate_ready fuel s node = do
  s1 ← raise_shell fuel s node
  let r = remove_terminated (set_state s1 node terminated) node
  some (r.0, 0, r.1)

unfoldable pub terminate_blocked : ℕ → Sched → ℕ → Option (Sched × ℕ × List Call)
terminate_blocked fuel s node = do
  s1 ← raise_shell fuel s node
  let r = remove_terminated s1 node
  some (r.0, 0, r.1)

unfoldable pub terminate_process : ℕ → Sched → ℕ → Option (Sched × ℕ × List Call)
terminate_process fuel s pid =
    let node : ℕ = search_ready s pid in
    if pid == 1
    then some (s, minus_one, [])
    else if (s.pcb s.current).pid == pid
    then terminate_current fuel s
    else if node == null
    then (do
      other ← search_block fuel s pid
      if other == null then some (s, minus_one, []) else terminate_blocked fuel s other)
    else terminate_ready fuel s node

-- What `scheduler` comes to: the CPU is stopped, or the stack of the next process is returned.
pub data Switch : Type 0 where
  stopped : Switch
  resumes : Sched → ℕ → List Call → Switch

-- The three branches of `scheduler` on the state of the current process.
unfoldable pub choose : Sched → Sched × List Call
choose s =
    let cur : Pcb = s.pcb s.current in
    let refilled : Sched = set_counter s s.current cur.priority in
    if same_state cur.state terminated
    then remove_terminated s s.current
    else if same_state cur.state blocked
    then (remove_blocked s s.current, [])
    else if s.priority_counter s.current == 0
    then (record refilled { current = refilled.next refilled.current }, [])
    else (s, [])

-- The end of `scheduler`: the process that was chosen has used one of its turns.
unfoldable pub resume : Sched → List Call → Switch
resume t calls =
    let counted : Sched = set_counter t t.current (sub64 (t.priority_counter t.current) 1) in
    if counted.counter == 0
    then resumes (record counted { halt = true }) counted.halt_rsp calls
    else resumes counted (counted.pcb counted.current).rsp calls

-- `scheduler` from the test of the counter on.
unfoldable pub pick : Sched → Switch
pick s =
    let chosen = choose s in
    if s.counter == 0
    then resumes (record s { halt = true }) s.halt_rsp []
    else resume chosen.0 chosen.1

unfoldable pub scheduler : Sched → ℕ → Switch
scheduler s rsp =
    let cur : Pcb = s.pcb s.current in
    let started : Sched → Sched = λ t. record t { halt = false; first_time = false } in
    let saved : Sched = set_pcb s s.current (record cur { rsp = rsp }) in
    if s.halt_rsp == 0
    then resumes s rsp []
    else if s.halt
    then pick (started (record s { halt_rsp = rsp }))
    else if s.first_time
    then pick (started s)
    else if ltb rsp cur.mem_start
    then stopped
    else pick (started saved)

unfoldable pub yield : Sched → Sched × List Call
yield s = (set_counter s s.current 0, int20 ∷ [])

-- `forkfd`: the descriptors of the current process, each with one more reference.
unfoldable pub dup_from : ℕ → ℕ → (ℕ → ℕ) → List Call
dup_from zero i fd = []
dup_from (suc k) i fd = fd_dup (fd i) ∷ dup_from k (i + 1) fd

unfoldable pub fork_fd : Sched → (ℕ → ℕ) → (ℕ → ℕ) × List Call
fork_fd s fd =
    let cur : Pcb = s.pcb s.current in
    (λ i. if ltb i max_fd then cur.fd i else fd i, dup_from max_fd 0 cur.fd)
