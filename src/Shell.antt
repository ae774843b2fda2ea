-- ===== src/Shell.antt =====
-- Userland/SampleCodeModule/shell.c: how a line becomes the commands that run. The line is the memory
-- from `input` on and a word is a pointer into it; `argv` is an array of such pointers.
pub mod Commands
pub mod Words
pub mod Lookup
pub mod Piped
pub mod Line
mod Tests
use tpe2_so.Base.{
  ℕ, zero, suc, ◌+◌, ◌-◌, ◌%◌, ◌^◌, Bool, true, false, not, ◌&&◌, ◌||◌, Option, none, some, List,
  [], ◌∷◌, ◌++◌, ltb, ◌==◌, if◌then◌else◌, update, get_or, ◌>>=◌,
}
use tpe2_so.Strings.{Text, strcmp}

-- The loop of `split` with `input` at `i`: the memory, `buf` and the last `word`.
pub split_loop : ℕ → ℕ → Text → ℕ → (ℕ → ℕ) → ℕ → Option (Text × (ℕ → ℕ) × ℕ)
split_loop zero max_count s i buf word = none
split_loop (suc fuel) max_count s i buf word =
    let blank : Bool = s i == b' ' in
    let s' : Text = if blank then update s i 0 else s in
    let buf' : ℕ → ℕ = if blank then update buf (word + 1) (i + 1) else buf in
    let rest = split_loop fuel max_count s' (i + 1) buf' (if blank then word + 1 else word) in
    if not (s i == 0) && ltb word (max_count - 1) then rest else some (s, buf, word)

pub split : ℕ → Text → (ℕ → ℕ) → ℕ → Option (Text × (ℕ → ℕ) × ℕ)
split fuel s buf max_count = do
  (t, buf', word) ← split_loop fuel max_count s 0 (update buf 0 0) 0
  some (t, buf', (word + 1) % 2 ^ 8)

-- The memory from a pointer on.
abbrev pub at_pointer : Text → ℕ → Text
at_pointer m p = λ i. m (p + i)

-- A string literal.
abbrev pub literal : List ℕ → Text
literal w = λ i. get_or w i 0

-- The search of `checkPipeCommand` from argument `i` on, with `left` arguments left: the place of the
-- first "|".
pub find_pipe : ℕ → Text → (ℕ → ℕ) → ℕ → ℕ → Option (Option ℕ)
find_pipe fuel m argv i zero = some none
find_pipe fuel m argv i (suc left) = do
  r ← strcmp fuel (at_pointer m (argv i)) (literal (b'|' ∷ [])) 0
  let rest = find_pipe fuel m argv (i + 1) left
  if r == 0 then some (some i) else rest

-- `checkPipeCommand`: `argc0` and `argv1` where there is a "|".
pub check_pipe_command : ℕ → Text → ℕ → (ℕ → ℕ) → (ℕ → ℕ) → Option (Option (ℕ × (ℕ → ℕ)))
check_pipe_command fuel m total argv0 argv1 = do
  found ← find_pipe fuel m argv0 0 total
  some (elim found [
    | none ↦ none
    | some i ↦ some (i, λ k. if ltb (i + 1 + k) total then argv0 (i + 1 + k) else argv1 k)
  ])

-- An entry of `cmds`: the handler is the address of its function, which is not NULL.
pub record Command : Type 0 where
  pub name : List ℕ
  pub handler : ℕ

-- `parseCommand`: the handler and `isBackground`; `none` stands for the handler NULL.
pub parse_command : ℕ → List Command → Text → ℕ → (ℕ → ℕ) → Option (Option (ℕ × Bool))
parse_command fuel [] m argc argv = some none
parse_command fuel (c ∷ cmds) m argc argv = do
  r ← strcmp fuel (at_pointer m (argv 0)) (literal c.name) 0
  let rest = parse_command fuel cmds m argc argv
  if r == 0 then some (some (c.handler, m (argv (argc - 1)) == b'&')) else rest

-- What a line comes to in `runShell`.
pub data Turn : Type 0 where
  no_line unknown not_found : Turn
  runs : ℕ → Bool → ℕ → (ℕ → ℕ) → Turn
  pipes : (ℕ × Bool) → (ℕ × Bool) → ℕ → ℕ → (ℕ → ℕ) → (ℕ → ℕ) → Turn

-- The part of the loop of `runShell` for a line with a "|".
pub piped : Option (ℕ × Bool) → Option (ℕ × Bool) → ℕ → ℕ → (ℕ → ℕ) → (ℕ → ℕ) → Turn
piped (some c0) (some c1) argc0 argc1 argv0 argv1 = pipes c0 c1 argc0 argc1 argv0 argv1
piped _ _ argc0 argc1 argv0 argv1 = not_found

pub single : Option (ℕ × Bool) → ℕ → (ℕ → ℕ) → Turn
single none argc argv = unknown
single (some (h, b)) argc argv = runs h b argc argv

-- The part of the loop of `runShell` for a line with a "|" at argument `argc0`.
pub run_piped : ℕ → List Command → Text → ℕ → (ℕ → ℕ) → ℕ → (ℕ → ℕ) → Option Turn
run_piped fuel cmds m total argv0 argc0 argv1 = do
  c0 ← parse_command fuel cmds m argc0 argv0
  c1 ← parse_command fuel cmds m (total - argc0 - 1) argv1
  some (piped c0 c1 argc0 (total - argc0 - 1) argv0 argv1)

pub run_single : ℕ → List Command → Text → ℕ → (ℕ → ℕ) → Option Turn
run_single fuel cmds m total argv = do
  c ← parse_command fuel cmds m total argv
  some (single c total argv)

-- The loop of `runShell` behind `split`; `argv1` is what that array held before.
pub run_words : ℕ → List Command → Text → ℕ → (ℕ → ℕ) → (ℕ → ℕ) → Option Turn
run_words fuel cmds m total argv0 argv1 = do
  pipe ← check_pipe_command fuel m total argv0 argv1
  elim pipe [
    | none ↦ run_single fuel cmds m total argv0
    | some (argc0, right) ↦ run_piped fuel cmds m total argv0 argc0 right
  ]

pub run_split : ℕ → List Command → Text → (ℕ → ℕ) → (ℕ → ℕ) → Option (Text × Turn)
run_split fuel cmds input argv0 argv1 = do
  (m, argv, total) ← split fuel input argv0 64
  turn ← run_words fuel cmds m total argv argv1
  some (m, turn)

-- The loop of `runShell` from the line on.
pub run_line : ℕ → List Command → Text → (ℕ → ℕ) → (ℕ → ℕ) → Option (Text × Turn)
run_line fuel cmds input argv0 argv1 = do
  r ← strcmp fuel input (literal []) 0
  let rest = run_split fuel cmds input argv0 argv1
  if r == 0 then some (input, no_line) else rest

-- What the shell asks of the kernel, and `uintToBase(value, buffer, 10)`.
pub data Call : Type 0 where
  to_decimal : ℕ → ℕ → Call
  create_process : ℕ → (ℕ → ℕ) → Call
  map_std_fds : ℕ → ℕ → ℕ → Call
  close sem_post : ℕ → Call
  change_priority set_background : ℕ → ℕ → Call

abbrev pub foreground : ℕ
foreground = 0

abbrev pub background : ℕ
background = 1

abbrev pub stdin : ℕ
stdin = 0

abbrev pub stdout : ℕ
stdout = 1

abbrev pub wrapper_args : ℕ
wrapper_args = 3

abbrev pub start_proc_sem : ℕ
start_proc_sem = 1

-- `shellPid`, and where the buffers of `runCommand` and `runPipedCommands` and the literals "0", "1" and
-- "-1" lie.
pub record Places : Type 0 where
  pub shell_pid : ℕ
  pub handler0_str : ℕ
  pub handler1_str : ℕ
  pub pipe_out_str : ℕ
  pub pipe_in_str : ℕ
  pub text_0 : ℕ
  pub text_1 : ℕ
  pub text_minus_1 : ℕ

-- The three arguments for `shellProcessWrapper` behind the others.
abbrev pub with_wrapper : ℕ → (ℕ → ℕ) → ℕ → ℕ → ℕ → ℕ → ℕ
with_wrapper argc argv handler mark end =
    update (update (update argv argc handler) (argc + 2) end) (argc + 1) mark

-- `runCommand`: its calls, and the new `forePid` where it is set. `pid` is what `sys_createprocess`
-- returns.
pub run_command : Places → ℕ → (ℕ × Bool) → ℕ → (ℕ → ℕ) → List Call × Option ℕ
run_command l pid (h, b) argc argv =
    let mark : ℕ = if b then l.text_1 else l.text_0 in
    let args = with_wrapper argc argv l.handler0_str mark l.text_minus_1 in
    let made : List Call =
      to_decimal h l.handler0_str ∷ create_process (argc + wrapper_args) args ∷ [] in
    if b then (made ++ (change_priority pid 1 ∷ sem_post start_proc_sem ∷ []), none) else (
      made
          ++ (set_background l.shell_pid background
              ∷ set_background pid foreground
              ∷ sem_post start_proc_sem
              ∷ []),
      some pid,
    )

-- `runPipedCommands`, given the ends that `sys_pipe` returns, which may fail, and the two new
-- processes.
pub run_piped_commands :
    Places
    → Option (ℕ × ℕ)
    → ℕ
    → ℕ
    → (ℕ × Bool)
    → (ℕ × Bool)
    → ℕ
    → ℕ
    → (ℕ → ℕ)
    → (ℕ → ℕ)
    → List Call × Option ℕ
run_piped_commands l none pid0 pid1 c0 c1 argc0 argc1 argv0 argv1 = ([], none)
run_piped_commands l (some (r, w)) pid0 pid1 (h0, b0) (h1, b1) argc0 argc1 argv0 argv1 =
    let mark : ℕ = if b1 then l.text_1 else l.text_0 in
    let args0 = with_wrapper argc0 argv0 l.handler0_str mark l.pipe_in_str in
    let args1 = with_wrapper argc1 argv1 l.handler1_str mark l.pipe_out_str in
    let made : List Call =
      to_decimal h0 l.handler0_str
      ∷ to_decimal h1 l.handler1_str
      ∷ to_decimal w l.pipe_out_str
      ∷ to_decimal r l.pipe_in_str
      ∷ create_process (argc0 + wrapper_args) args0
      ∷ create_process (argc1 + wrapper_args) args1
      ∷ map_std_fds pid0 stdin w
      ∷ map_std_fds pid1 r stdout
      ∷ close r
      ∷ close w
      ∷ [] in
    let start : List Call = sem_post start_proc_sem ∷ sem_post start_proc_sem ∷ [] in
    if b1 then (made ++ (change_priority pid0 1 ∷ change_priority pid1 1 ∷ start), none) else (
      made ++ (set_background l.shell_pid background ∷ set_background pid0 foreground ∷ start),
      some pid0,
    )

-- The end of a turn of the loop of `runShell`: its calls and the new `forePid`.
pub run_turn : Places → Option (ℕ × ℕ) → ℕ → ℕ → Turn → List Call × Option ℕ
run_turn l ends pid0 pid1 no_line = ([], none)
run_turn l ends pid0 pid1 unknown = ([], none)
run_turn l ends pid0 pid1 not_found = ([], none)
run_turn l ends pid0 pid1 (runs h b argc argv) = run_command l pid0 (h, b) argc argv
run_turn l ends pid0 pid1 (pipes c0 c1 argc0 argc1 argv0 argv1) =
    run_piped_commands l ends pid0 pid1 c0 c1 argc0 argc1 argv0 argv1
