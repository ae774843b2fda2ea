-- ===== src/Fd.antt =====
-- Kernel/pipe/fd.c: the table of open files, counted by reference. A file is one end of a pipe,
-- which is named by its address. The table is memory: entry 255 lies behind it.
pub mod Laws
mod Tests
use tpe2_so.Base.{
  ℕ, zero, suc, ◌+◌, ◌-◌, ◌%◌, ◌^◌, Bool, true, false, not, ◌||◌, Option, none, some, ltb, ◌==◌,
  if◌then◌else◌, update, sub64,
}
use tpe2_so.Pipe.{FdType, read, write}

abbrev pub max_fd : ℕ
max_fd = 255

-- The result -1 of the `int64_t` functions.
abbrev pub minus_one : ℕ
minus_one = 2 ^ 64 - 1

abbrev pub null : ℕ
null = 0

pub record Fd : Type 0 where
  pub ref : ℕ
  pub type : FdType
  pub pipe : ℕ

abbrev pub Table : Type 0
Table = ℕ → Fd

abbrev pub same_type : FdType → FdType → Bool
same_type read read = true
same_type write write = true
same_type _ _ = false

-- The loop of `initFd` from entry `i` on, with that many entries left.
unfoldable pub init_from : ℕ → ℕ → Table → FdType → ℕ → ℕ × Table
init_from zero i t type pipe = (minus_one, t)
init_from (suc k) i t type pipe =
    let rest = init_from k (i + 1) t type pipe in
    if (t i).ref == 0 then (i, update t i (record { ref = 1; type = type; pipe = pipe })) else rest

unfoldable pub init_fd : Table → FdType → ℕ → ℕ × Table
init_fd t type pipe = init_from (max_fd - 3) 3 t type pipe

-- The result, the table, and the end of a pipe that is closed by `closePipe`.
unfoldable pub close_fd : Table → ℕ → ℕ × Table × Option (ℕ × FdType)
close_fd t id =
    if ltb max_fd id || (t id).ref == 0
    then (minus_one, t, none)
    else (let fd : Fd = t id in
        let ref : ℕ = sub64 fd.ref 1 in
        if ref == 0
        then (0, update t id (record fd { ref = ref; pipe = null }), some (fd.pipe, fd.type))
        else (0, update t id (record fd { ref = ref }), none))

unfoldable pub fd_dup : Table → ℕ → Table
fd_dup t id =
    if not (ltb id max_fd) || (t id).ref == 0
    then t
    else update t id (record (t id) { ref = ((t id).ref + 1) % 2 ^ 64 })

-- The pipe that `readFd` and `writeFd` go on with; `none` is the result -1.
pub file_pipe : FdType → Table → ℕ → Option ℕ
file_pipe type t fd =
    if not (ltb fd max_fd) || not (same_type (t fd).type type) then none else some (t fd).pipe

pub read_fd : Table → ℕ → Option ℕ
read_fd = file_pipe read

pub write_fd : Table → ℕ → Option ℕ
write_fd = file_pipe write
