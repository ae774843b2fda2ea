-- ===== src/Scheduler.antt =====
-- Kernel/Scheduler/scheduler.c: the ring of ready processes and the list of blocked ones. A node is
-- named by its address, and its fields are functions of the address: a read or a write through NULL
-- is one at address 0, as in the kernel, which maps that page.
pub mod Ops
pub mod Ring
pub mod Insert
pub mod Quantum
pub mod Lists
pub mod Cut
pub mod Block
pub mod Leave
pub mod Unblock
pub mod Switch
pub mod Descriptors
pub mod Ending
pub mod Turns
mod Tests
use tpe2_so.Base.{
  ℕ, zero, suc, ◌+◌, ◌-◌, ◌^◌, Bool, true, false, Option, none, some, List, [], ◌∷◌, ltb, ◌==◌,
  if◌then◌else◌, sub64, update, ◌>>=◌,
}

abbrev pub null : ℕ
null = 0

abbrev pub max_fd : ℕ
max_fd = 255

-- The result -1 as an `int64_t`, and the entry -1 of a descriptor table.
abbrev pub minus_one : ℕ
minus_one = 2 ^ 64 - 1

-- `enum State`.
pub data State : Type 0 where
  ready blocked terminated : State

-- `enum Background`.
pub data Background : Type 0 where
  foreground background : Background

-- `PCB`; `argc` and `argv`, which the scheduler only stores, are left out.
pub record Pcb : Type 0 where
  pub pid : ℕ
  pub state : State
  pub rsp : ℕ
  pub mem_start : ℕ
  pub priority : ℕ
  pub background : Background
  pub fd : ℕ → ℕ

-- The fields of the nodes, the two lists, and the statics.
pub record Sched : Type 0 where
  pub next : ℕ → ℕ
  pub prev : ℕ → ℕ
  pub pcb : ℕ → Pcb
  pub priority_counter : ℕ → ℕ
  pub current : ℕ
  pub counter : ℕ
  pub first : ℕ
  pub halt_rsp : ℕ
  pub halt : Bool
  pub first_time : Bool

-- What the scheduler asks of the other components.
pub data Call : Type 0 where
  close_fd free fd_dup : ℕ → Call
  int20 : Call

abbrev pub set_next : Sched → ℕ → ℕ → Sched
set_next s p q = record s { next = update s.next p q }

abbrev pub set_prev : Sched → ℕ → ℕ → Sched
set_prev s p q = record s { prev = update s.prev p q }

abbrev pub set_pcb : Sched → ℕ → Pcb → Sched
set_pcb s p b = record s { pcb = update s.pcb p b }

abbrev pub set_counter : Sched → ℕ → ℕ → Sched
set_counter s p c = record s { priority_counter = update s.priority_counter p c }

abbrev pub set_state : Sched → ℕ → State → Sched
set_state s p st = set_pcb s p (record (s.pcb p) { state = st })

-- `schedulerAddProcess`, given what `alloc` returned.
pub add_process : Sched → ℕ → Pcb → Sched × ℕ
add_process s node b =
    let made : Sched = set_counter (set_pcb s node b) node b.priority in
    let alone : Sched = record (set_prev (set_next made node node) node node) { current = node } in
    let s1 : Sched = set_next made node made.current in
    let s2 : Sched = set_prev s1 node (s1.prev s1.current) in
    let s3 : Sched = set_next s2 (s2.prev s2.current) node in
    let s4 : Sched = set_prev s3 s3.current node in
    let placed : Sched = if s.counter == 0 then alone else s4 in
    if b.pid == 0
    then (record s { halt_rsp = b.rsp }, 0)
    else if node == null
    then (s, minus_one)
    else (record placed { counter = placed.counter + 1 }, 0)

pub get_pid : Sched → ℕ
get_pid s = (s.pcb s.current).pid

-- The loop of `searchReadyNode`, with the rounds that are left.
pub search_ring : ℕ → Sched → ℕ → ℕ → ℕ
search_ring zero s it pid = null
search_ring (suc k) s it pid =
    let rest = search_ring k s (s.next it) pid in if (s.pcb it).pid == pid then it else rest

pub search_ready : Sched → ℕ → ℕ
search_ready s pid = search_ring s.counter s s.current pid

-- The loop of `searchBlockNode`; `none` means that the fuel ran out.
pub search_list : ℕ → Sched → ℕ → ℕ → Option ℕ
search_list zero s it pid = none
search_list (suc k) s it pid =
    let rest = search_list k s (s.next it) pid in
    if it == null then some null else if (s.pcb it).pid == pid then some it else rest

pub search_block : ℕ → Sched → ℕ → Option ℕ
search_block fuel s pid = search_list fuel s s.first pid

pub search_node : ℕ → Sched → ℕ → Option ℕ
search_node fuel s pid =
    let node : ℕ = search_ready s pid in if node == null then search_block fuel s pid else some node

pub set_background : ℕ → Sched → ℕ → Background → Option (Sched × ℕ)
set_background fuel s pid b = do
  node ← search_node fuel s pid
  some (
      if node == null
      then (s, minus_one)
      else (set_pcb s node (record (s.pcb node) { background = b }), 0))

pub get_background : Sched → Background
get_background s = (s.pcb s.current).background

pub map_std_fds : ℕ → Sched → ℕ → ℕ → ℕ → Option (Sched × ℕ)
map_std_fds fuel s pid stdin stdout = do
  node ← search_node fuel s pid
  let b : Pcb = s.pcb node
  some (
      if node == null
      then (s, minus_one)
      else if b.fd stdin == minus_one
      then (s, minus_one)
      else if b.fd stdout == minus_one
      then (s, minus_one)
      else (set_pcb s node (record b { fd = update (update b.fd 0 stdin) 1 stdout }), 0))

unfoldable pub fd_local_to_global : Sched → ℕ → ℕ
fd_local_to_global s fd = (s.pcb s.current).fd fd

abbrev pub set_fd : Sched → ℕ → ℕ → Sched
set_fd s fd v =
    let b : Pcb = s.pcb s.current in set_pcb s s.current (record b { fd = update b.fd fd v })

unfoldable pub add_fd : Sched → ℕ → Sched
add_fd s fd = if ltb fd max_fd then set_fd s fd fd else s

unfoldable pub remove_fd : Sched → ℕ → Sched
remove_fd s fd = if ltb fd max_fd then set_fd s fd minus_one else s

pub change_priority : ℕ → Sched → ℕ → ℕ → Option (Sched × ℕ)
change_priority fuel s pid priority = do
  node ← search_node fuel s pid
  let s1 : Sched = set_pcb s node (record (s.pcb node) { priority = priority })
  some (
      if node == null
      then (s, minus_one)
      else if ltb priority (s1.priority_counter node)
      then (set_counter s1 node priority, priority)
      else (s1, priority))

-- `node->prev->next = node->next; node->next->prev = node->prev;`
abbrev pub unlink : Sched → ℕ → Sched
unlink s node =
    let s1 : Sched = set_next s (s.prev node) (s.next node) in
    set_prev s1 (s1.next node) (s1.prev node)

-- `node->prev->next = node->next; if (node->next != NULL) node->next->prev = node->prev;`
abbrev pub unlink_blocked : Sched → ℕ → Sched
unlink_blocked s node =
    let s1 : Sched = set_next s (s.prev node) (s.next node) in
    if s1.next node == null then s1 else set_prev s1 (s1.next node) (s1.prev node)
