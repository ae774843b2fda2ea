-- ===== src/Process.antt =====
-- Kernel/Scheduler/processManagement.c: the memory of a new process. The memory is one function of
-- the address, in bytes, and a pointer is 8 of them; the arguments are given by their bytes, and `alloc`
-- by its result.
pub mod Words
pub mod Arguments
pub mod Creating
mod Tests
use tpe2_so.Base.{
  ℕ, zero, suc, ◌+◌, ◌-◌, ◌*◌, ◌/◌, ◌%◌, ◌^◌, Bool, Option, none, some, List, [], ◌∷◌, ◌++◌, length,
  ltb, ◌&&◌, ◌==◌, if◌then◌else◌, update, add32,
}
use tpe2_so.Strings.{Text}
use tpe2_so.Scheduler.{Sched, Pcb, Call, free, ready, background, minus_one, add_process}
use tpe2_so.Scheduler.Ops.{fork_fd}

abbrev pub proc_mem : ℕ
proc_mem = 8 * 1024

-- `sizeof(ProcState)`, which is packed: 15 registers and six words.
abbrev pub frame_size : ℕ
frame_size = 21 * 8

-- The loop that zeroes the memory, with `n` bytes left.
unfoldable pub zero_out : ℕ → ℕ → Text → Text
zero_out zero a m = m
zero_out (suc n) a m = zero_out n (a + 1) (update m a 0)

-- `strcpy` of this file: it copies the bytes of the text and not its end.
pub copy_text : List ℕ → ℕ → Text → Text
copy_text [] a m = m
copy_text (c ∷ w) a m = copy_text w (a + 1) (update m a c)

-- The loop over the arguments: the memory, `staticArgs` and `argvStringsSize`.
pub copy_args : List (List ℕ) → ℕ → ℕ → Text → Text × List ℕ × ℕ
copy_args [] mem_end size m = (m, [], size)
copy_args (w ∷ ws) mem_end size m =
    let size' : ℕ = size + (length w + 1) in
    let dir : ℕ = mem_end - size' in
    let rest = copy_args ws mem_end size' (copy_text w dir m) in (rest.0, dir ∷ rest.1, rest.2)

-- A write of `n` bytes, of which the lowest comes first, and the value that `n` bytes hold.
unfoldable pub store : ℕ → ℕ → ℕ → Text → Text
store zero a v m = m
store (suc n) a v m = store n (a + 1) (v / 256) (update m a (v % 256))

unfoldable pub load : ℕ → ℕ → Text → ℕ
load zero a m = 0
load (suc n) a m = m a + 256 * load n (a + 1) m

-- The loop that fills `newProcArgv`.
pub put_pointers : List ℕ → ℕ → Text → Text
put_pointers [] a m = m
put_pointers (d ∷ dirs) a m = put_pointers dirs (a + 8) (store 8 a d m)

-- Writes of words at offsets from an address.
pub put_fields : ℕ → List (ℕ × ℕ) → Text → Text
put_fields p [] m = m
put_fields p ((offset, v) ∷ fields) m = put_fields p fields (store 8 (p + offset) v m)

-- The fields of `ProcState` that are set, by their offsets, in the order of the code: cs, rbp, rsp,
-- rflags, rip, rdi and rsi.
abbrev pub start_fields : ℕ → ℕ → ℕ → ℕ → List (ℕ × ℕ)
start_fields program argc argv rsp =
    (128, 8) ∷ (80, rsp) ∷ (144, rsp) ∷ (136, 0x202) ∷ (120, program) ∷ (72, argc) ∷ (64, argv) ∷ []

-- The memory behind `p->regs.rsi = ...`, with `newProcArgv` and `p`.
pub record Image : Type 0 where
  pub memory : Text
  pub argv : ℕ
  pub regs : ℕ

abbrev pub align_8 : ℕ → ℕ
align_8 rsp = if rsp % 8 == 0 then rsp else rsp - rsp % 8

-- `processCreate` from the zeroing of the memory to `p->regs.rsi`.
pub build : ℕ → List (List ℕ) → ℕ → Text → Image
build program args mem_start memory =
    let mem_end : ℕ = mem_start + proc_mem - 1 in
    let copied = copy_args args mem_end 0 (zero_out proc_mem mem_start memory) in
    let argv : ℕ = mem_end - copied.2 - 8 * length args in
    let rsp : ℕ = align_8 (argv - 8) in
    let p : ℕ = rsp - frame_size + 1 in
    let pointed : Text = put_pointers copied.1 argv copied.0 in
    record {
      memory = put_fields p (start_fields program (length args) argv rsp) pointed;
      argv = argv;
      regs = p;
    }

-- The PID -1.
abbrev pub no_pid : ℕ
no_pid = 2 ^ 32 - 1

-- The static variables `pid` and `tempPCB.fd`.
pub record Creator : Type 0 where
  pub pid : ℕ
  pub fd : ℕ → ℕ

-- The descriptors of the shell: the three standard ones.
abbrev pub shell_fd : ℕ → ℕ
shell_fd i = if ltb i 3 then i else minus_one

-- The descriptors in `tempPCB`: those of the shell, or those of the current process, duplicated.
pub choose_fd : Creator → Sched → (ℕ → ℕ) × List Call
choose_fd c s =
    if c.pid == 1
    then (shell_fd, [])
    else if ltb 1 c.pid && ltb c.pid (2 ^ 31)
    then fork_fd s c.fd
    else (c.fd, [])

-- `tempPCB`.
abbrev pub pcb_of : Creator → Sched → ℕ → Image → Pcb
pcb_of c s mem_start image = record {
  pid = c.pid;
  state = ready;
  rsp = image.regs;
  mem_start = mem_start;
  priority = 2;
  background = background;
  fd = (choose_fd c s).0;
}

-- What `processCreate` comes to.
pub record Created : Type 0 where
  pub creator : Creator
  pub sched : Sched
  pub image : Option Image
  pub result : ℕ
  pub calls : List Call

-- `processCreate`: `mem_start` and `node` are what `alloc` returns, here and in the scheduler.
pub process_create : ℕ → List (List ℕ) → ℕ → ℕ → Creator → Sched → Text → Created
process_create program args mem_start node c s memory =
    let image = build program args mem_start memory in
    let fds = choose_fd c s in
    let pcb : Pcb = pcb_of c s mem_start image in
    let added = add_process s node pcb in
    let next : Creator = record { pid = add32 c.pid 1; fd = fds.0 } in
    let failed : Created = record {
      creator = next;
      sched = added.0;
      image = some image;
      result = no_pid;
      calls = fds.1 ++ (free mem_start ∷ []);
    } in
    let done : Created = record {
      creator = next;
      sched = added.0;
      image = some image;
      result = c.pid;
      calls = fds.1;
    } in
    if mem_start == 0
    then record { creator = c; sched = s; image = none; result = no_pid; calls = [] }
    else if added.1 == 0
    then done
    else failed
