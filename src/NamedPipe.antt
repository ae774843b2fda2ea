-- ===== src/NamedPipe.antt =====
-- Kernel/pipe/pipe.c: `openPipe`, which gives a new pipe its descriptors, and the named pipes. The
-- state joins the table of open files, the pipes by their addresses, and the three statics.

pub mod Creation
pub mod Names
pub mod Making
pub mod Removing
mod Tests
use tpe2_so.Base.{
  ℕ, zero, suc, ◌+◌, ◌%◌, ◌^◌, Bool, true, false, Option, none, some, List, [], ◌∷◌, ◌++◌, map, leb,
  ◌==◌, if◌then◌else◌, add32, update,
}
use tpe2_so.Pipe
use tpe2_so.Pipe.{Pipe, FdType, read, write, close_pipe}
use tpe2_so.Fd
use tpe2_so.Fd.{Table, max_fd, minus_one, null, init_fd, fd_dup, close_fd}

abbrev pub max_fifo : ℕ
max_fifo = 64

-- `FIFO`.
pub record Fifo : Type 0 where
  pub id : ℕ
  pub read_fd : ℕ
  pub write_fd : ℕ

pub record Files : Type 0 where
  pub fds : Table
  pub pipes : ℕ → Pipe
  pub pipe_table : ℕ → ℕ
  pub sem_counter : ℕ
  pub fifos : ℕ → Fifo

pub data Call : Type 0 where
  sem_open : ℕ → ℕ → Call
  free : ℕ → Call
  of_pipe : Pipe.Call → Call

-- The test `< 0` of an `int64_t`.
abbrev pub negative : ℕ → Bool
negative x = leb (2 ^ 63) x

-- `semcounter++` on an `int`, as its 32 bits.
abbrev pub next_counter : ℕ → ℕ
next_counter c = add32 c 1

-- The loop over `pipeTable` from entry `i` on that writes the first entry with a value.
pub replace_first : ℕ → ℕ → (ℕ → ℕ) → ℕ → ℕ → ℕ → ℕ
replace_first zero i t old new = t
replace_first (suc k) i t old new =
    let rest = replace_first k (i + 1) t old new in if t i == old then update t i new else rest

pub data Opening : Type 0 where
  failed : Files → List Call → Opening
  opened : Files → ℕ → ℕ → List Call → Opening

-- What `openPipe` writes into the block from `alloc`; the other fields keep what lay there.
pub new_pipe : Pipe → ℕ → ℕ → ℕ → Pipe
new_pipe p c r w = record p {
  write_open = true;
  read_open = true;
  read_idx = 0;
  write_idx = 0;
  write_queue = c;
  read_queue = next_counter c;
  read_fd = r;
  write_fd = w;
}

-- `openPipe`, given the address that `alloc` returned.
unfoldable pub open_pipe : ℕ → Files → Opening
open_pipe a s =
    let r = init_fd s.fds read a in
    let w = init_fd r.1 write a in
    let c : ℕ = s.sem_counter in
    let t : Files = record s {
      fds = w.1;
      pipes = update s.pipes a (new_pipe (s.pipes a) c r.0 w.0);
      pipe_table = replace_first max_fd 0 s.pipe_table null a;
      sem_counter = next_counter (next_counter c);
    } in
    if a == null
    then failed s []
    else if negative r.0
    then failed (record s { fds = r.1 }) (free a ∷ [])
    else if negative w.0
    then failed (record s { fds = w.1 }) (free a ∷ [])
    else opened t r.0 w.0 (sem_open c 1 ∷ sem_open (next_counter c) 1 ∷ [])

-- `closeFd`, with the `closePipe` that it ends in.
unfoldable pub close_file : Files → ℕ → Files × ℕ × List Call
close_file s fd =
    let r = close_fd s.fds fd in
    let s1 : Files = record s { fds = r.1 } in
    elim r.2 [
      | none ↦ (s1, r.0, [])
      | some (p, type) ↦
          let closed = close_pipe (s.pipes p) type in
          let s2 : Files = record s1 { pipes = update s1.pipes p closed.0 } in
          let gone : Files = record s2 {
            pipe_table = replace_first max_fd 0 s2.pipe_table p null;
          } in
          let calls = map of_pipe closed.2 in
          if closed.1 then (gone, r.0, calls ++ (free p ∷ [])) else (s2, r.0, calls)
    ]

-- The first entry of `fifoTable` from `i` on with the number.
pub find_fifo : ℕ → ℕ → (ℕ → Fifo) → ℕ → Option ℕ
find_fifo zero i t id = none
find_fifo (suc k) i t id =
    let rest = find_fifo k (i + 1) t id in if (t i).id == id then some i else rest

-- The loop of `mkFifo`: whether the number is taken, else the first free entry.
pub data Scan : Type 0 where
  taken full : Scan
  slot : ℕ → Scan

-- `if (id == 0 && k == -1) k = i`, in a free entry.
pub keep_first : ℕ → Scan → Scan
keep_first i full = slot i
keep_first i taken = taken
keep_first i (slot k) = slot k

pub scan : ℕ → ℕ → (ℕ → Fifo) → ℕ → Scan → Scan
scan zero i t id k = k
scan (suc n) i t id k =
    let rest = scan n (i + 1) t id (if (t i).id == 0 then keep_first i k else k) in
    if (t i).id == id then taken else rest

-- The end of `mkFifo`, once an entry is found.
pub fill_slot : ℕ → ℕ → ℕ → Files → Files × ℕ × List Call
fill_slot id k a s = elim (open_pipe a s) [
  | failed t calls ↦ (t, minus_one, calls)
  | opened t r w calls ↦
      let fifo : Fifo = record { id = id; read_fd = r % 2 ^ 16; write_fd = w % 2 ^ 16 } in
      (record t { fifos = update t.fifos k fifo }, 0, calls)
]

-- `mkFifo` behind its loop.
pub place_fifo : ℕ → ℕ → Files → Scan → Files × ℕ × List Call
place_fifo id a s taken = (s, minus_one, [])
place_fifo id a s full = (s, minus_one, [])
place_fifo id a s (slot k) = fill_slot id k a s

pub mk_fifo : ℕ → ℕ → Files → Files × ℕ × List Call
mk_fifo id a s =
    if id == 0 then (s, minus_one, []) else place_fifo id a s (scan max_fifo 0 s.fifos id full)

pub fifo_fd : FdType → Fifo → ℕ
fifo_fd read f = f.read_fd
fifo_fd write f = f.write_fd

pub open_fifo : ℕ → FdType → Files → Files × ℕ
open_fifo id type s = if id == 0 then (s, minus_one) else elim (find_fifo max_fifo 0 s.fifos id) [
  | none ↦ (s, minus_one)
  | some i ↦ let fd : ℕ = fifo_fd type (s.fifos i) in (record s { fds = fd_dup s.fds fd }, fd)
]

-- What `rmFifo` does with the entry that it found.
pub clear_fifo : ℕ → Files → Files × ℕ × List Call
clear_fifo i s =
    let f : Fifo = s.fifos i in
    let s1 : Files = record s { fifos = update s.fifos i (record f { id = 0 }) } in
    let r = close_file s1 f.read_fd in
    let w = close_file r.0 f.write_fd in
    let cleared : Fifo = record { id = 0; read_fd = 0; write_fd = 0 } in
    (record w.0 { fifos = update w.0.fifos i cleared }, 0, r.2 ++ w.2)

pub rm_fifo : ℕ → Files → Files × ℕ × List Call
rm_fifo id s = if id == 0 then (s, minus_one, []) else elim (find_fifo max_fifo 0 s.fifos id) [
  | none ↦ (s, minus_one, [])
  | some i ↦ clear_fifo i s
]
