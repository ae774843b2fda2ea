-- ===== src/Syscall/Read.antt =====
-- `sys_read_handler` and `sys_write_handler` of Kernel/interruptions/syscallHandler.c. What each
-- call of `readAscii` returns comes in a list, each byte with whether the process was then in the
-- background; where the list ends, the process sleeps in `readAscii`.
pub mod Line
use tpe2_so.Base.{
  ℕ, zero, suc, ◌+◌, ◌-◌, ◌^◌, Bool, true, false, not, ◌&&◌, List, [], ◌∷◌, ◌++◌, ltb, ◌==◌,
  if◌then◌else◌, update,
}

abbrev pub stdin : ℕ
stdin = 0

abbrev pub stdout : ℕ
stdout = 1

abbrev pub sem_read : ℕ
sem_read = 2

-- The result -1.
abbrev pub minus_one : ℕ
minus_one = 2 ^ 64 - 1

-- What one turn of the loop over a line comes to: the loop is left with a result, or goes on at an
-- index with the buffer and the bytes that were echoed.
pub data Turn : Type 0 where
  leave : ℕ → (ℕ → ℕ) → List ℕ → Turn
  again : ℕ → (ℕ → ℕ) → List ℕ → Turn

-- One turn, for a byte `c`. A tab, and a backspace at the start, undo the `i++` of the loop.
pub turn : ℕ → ℕ → Bool → ℕ → (ℕ → ℕ) → Turn
turn pid c background i buffer =
    if c == 3
    then leave (if pid == 1 then 3 else 0) buffer []
    else if c == 4
    then leave 0 buffer []
    else if background
    then leave i buffer []
    else if c == 9
    then again i buffer []
    else if c == 255
    then leave minus_one buffer []
    else if c == 8
    then (if i == 0 then again i buffer [] else again (i - 1) buffer (8 ∷ []))
    else if c == 10
    then leave (i + 1) (update buffer i c) (c ∷ [])
    else again (i + 1) (update buffer i c) (c ∷ [])

-- What the terminal did: the result, the buffer and the echo, or asleep at an index.
pub data Terminal : Type 0 where
  returns : ℕ → (ℕ → ℕ) → List ℕ → Terminal
  sleeps : ℕ → (ℕ → ℕ) → List ℕ → Terminal

-- The loop over a line from index `i` on, for a buffer of `bytes`.
pub read_line : ℕ → ℕ → List (ℕ × Bool) → ℕ → (ℕ → ℕ) → List ℕ → Terminal
read_line pid bytes [] i buffer echo =
    if ltb i bytes then sleeps i buffer echo else returns i buffer echo
read_line pid bytes ((c, background) ∷ typed) i buffer echo =
    let full = returns i buffer echo in
    let more : Terminal = elim (turn pid c background i buffer) [
      | leave r b e ↦ returns r b (echo ++ e)
      | again j b e ↦ read_line pid bytes typed j b (echo ++ e)
    ] in
    if ltb i bytes then more else full

-- The loop of the raw mode, with so many bytes left to read.
pub read_raw : ℕ → List (ℕ × Bool) → ℕ → (ℕ → ℕ) → Terminal
read_raw zero typed i buffer = returns i buffer []
read_raw (suc left) [] i buffer = sleeps i buffer []
read_raw (suc left) ((c, background) ∷ typed) i buffer =
    read_raw left typed (i + 1) (update buffer i c)

pub data Call : Type 0 where
  block : ℕ → Call
  sem_open : ℕ → ℕ → Call
  sem_wait sem_post : ℕ → Call

-- `sys_read_handler`, with the calls before the loop and those behind it.
pub data Reading : Type 0 where
  refused : Call → Reading
  terminal : List Call → Terminal → List Call → Reading
  of_file : ℕ → Reading

pub sys_read_handler : ℕ → ℕ → Bool → Bool → List (ℕ × Bool) → (ℕ → ℕ) → ℕ → Reading
sys_read_handler fd pid background raw_mode typed buffer bytes =
    let opening : List Call = sem_open sem_read 1 ∷ sem_wait sem_read ∷ [] in
    let line : Terminal = read_line pid bytes typed 0 buffer [] in
    let raw : Terminal = read_raw bytes typed 0 buffer in
    if fd == stdin
    then (if background && not (pid == 1)
        then refused (block pid)
        else terminal opening (if raw_mode then raw else line) (sem_post sem_read ∷ []))
    else of_file fd

-- `sys_write_handler`: the bytes that are printed.
pub sys_write_handler : ℕ → List ℕ → List ℕ
sys_write_handler fd bytes = if fd == stdout then bytes else []
