-- ===== src/Shell/Line.antt =====
-- What a line comes to: one command, or two with a pipe between them.
use mathlib.Core.Path.{subst}
use tpe2_so.Base.{
  ℕ, suc, ◌+◌, ◌-◌, ◌<◌, ◌≡◌, false, refl, none, some, List, [], ◌∷◌, ◌++◌, ◌&&◌, arith, length,
  length-append, All, ◌∙◌, ap, if◌then◌else◌, ltb,
}
use tpe2_so.Strings.{Text}
use tpe2_so.Strings.Equal.{Reads, same_text}
use tpe2_so.Shell.{
  Command, Turn, Places, run_turn, piped, single, check_pipe_command, split, parse_command,
  run_single, run_piped, run_words, run_split,
}
use tpe2_so.Shell.Piped.{
  PipedTurn, piped-PipedTurn, PipedTurn-calls, created, shown, known, in_front,
}
use tpe2_so.Shell.Words.{ReadsAll, Short, words, words-Short, all_words, split-words}
use tpe2_so.Shell.Lookup.{Named, lookup, parse_command-lookup, bar, pipe_at, find_pipe-pipe_at}

-- The last of the words that start with `w`.
abbrev pub last_word : List ℕ → List (List ℕ) → List ℕ
last_word w [] = w
last_word w (v ∷ ws) = last_word v ws

Reads-last_word :
    (m : Text) (argv : ℕ → ℕ) (i : ℕ) (w : List ℕ) (ws : List (List ℕ))
    → ReadsAll m argv i (w ∷ ws)
    → Reads m (argv (i + length ws)) (last_word w ws)
Reads-last_word m argv i w [] (r, rest) = let at_end : i + 0 ≡ i = omega arith in rw at_end r
Reads-last_word m argv i w (v ∷ ws) (r, rs) =
    let next : i + suc (length ws) ≡ i + 1 + length ws = omega arith in
    rw next (Reads-last_word m argv (i + 1) v ws rs)

-- No word is "|".
abbrev pub NoBar : List (List ℕ) → Type 0
NoBar ws = All (λ w. same_text w bar ≡ false) ws

pipe_at-none : (i : ℕ) (ws : List (List ℕ)) → NoBar ws → pipe_at i ws ≡ none
unfolding pipe_at
pipe_at-none i [] h = refl
pipe_at-none i (w ∷ ws) (e, h) = rw e (pipe_at-none (i + 1) ws h)

pipe_at-some :
    (i : ℕ) (ls rs : List (List ℕ)) → NoBar ls → pipe_at i (ls ++ (bar ∷ rs)) ≡ some (i + length ls)
unfolding pipe_at same_text
pipe_at-some i [] rs h = let at_end : i + 0 ≡ i = omega arith in rw at_end refl
pipe_at-some i (l ∷ ls) rs (e, h) =
    let next : i + suc (length ls) ≡ i + 1 + length ls = omega arith in
    rw (e, next) (pipe_at-some (i + 1) ls rs h)

-- The words before and behind some place.
ReadsAll-split :
    (m : Text) (argv : ℕ → ℕ) (i : ℕ) (ls rs : List (List ℕ))
    → ReadsAll m argv i (ls ++ rs)
    → ReadsAll m argv i ls × ReadsAll m argv (i + length ls) rs
ReadsAll-split m argv i [] rs r = let at_end : i + 0 ≡ i = omega arith in (tt, rw at_end r)
ReadsAll-split m argv i (l ∷ ls) rs (r, all) =
    let rest = ReadsAll-split m argv (i + 1) ls rs all in
    let next : i + suc (length ls) ≡ i + 1 + length ls = omega arith in
    ((r, rest.0), rw next rest.1)

moved_first : (f g : ℕ → ℕ) (i j : ℕ) → g (j + 0) ≡ f (i + 0) → g j ≡ f i
moved_first f g i j e =
    let i0 : i + 0 ≡ i = omega arith in let j0 : j + 0 ≡ j = omega arith in rw (i0, j0) at e

moved_next :
    (f g : ℕ → ℕ) (i j k : ℕ) → g (j + (k + 1)) ≡ f (i + (k + 1)) → g (j + 1 + k) ≡ f (i + 1 + k)
moved_next f g i j k e =
    let ik : i + (k + 1) ≡ i + 1 + k = omega arith in
    let jk : j + (k + 1) ≡ j + 1 + k = omega arith in rw (ik, jk) at e

ReadsAll-moved :
    (m : Text) (argv right : ℕ → ℕ) (i j : ℕ) (ws : List (List ℕ))
    → ((k : ℕ) → k < length ws → right (j + k) ≡ argv (i + k))
    → ReadsAll m argv i ws
    → ReadsAll m right j ws
ReadsAll-moved m argv right i j [] e r = tt
ReadsAll-moved m argv right i j (w ∷ ws) e (r, rs) = (
  rw (moved_first argv right i j (e 0 (omega arith))) r,
  ReadsAll-moved m argv right (i + 1) (j + 1) ws
      (λ k lt. moved_next argv right i j k (e (k + 1) (omega arith))) rs,
)

All-split {κ} :
    (P : List ℕ → Type κ) (ls rs : List (List ℕ)) → All P (ls ++ rs) → All P ls × All P rs
All-split P [] rs h = (tt, h)
All-split P (l ∷ ls) rs (p, h) = let rest = All-split P ls rs h in ((p, rest.0), rest.1)

abbrev AllShort : ℕ → List (List ℕ) → Type 0
AllShort fuel ws = All (λ w. Short fuel w) ws

module _ (fuel : ℕ) (cmds : List Command) (m : Text) (argv argv1 : ℕ → ℕ) (named : Named cmds) where
  parse-words :
      (l : List ℕ) (ls : List (List ℕ)) (left : ℕ → ℕ)
      → ReadsAll m left 0 (l ∷ ls)
      → Short fuel l
      → parse_command fuel cmds m (length (l ∷ ls)) left ≡ some (lookup cmds l (last_word l ls))
  parse-words l ls left all h =
      let end : suc (length ls) - 1 ≡ 0 + length ls = omega arith in
      parse_command-lookup fuel cmds m (length (l ∷ ls)) left l (last_word l ls) all.0
        (rw end (Reads-last_word m left 0 l ls all)) h named

  run_words-single :
      (w : List ℕ) (ws : List (List ℕ))
      → ReadsAll m argv 0 (w ∷ ws)
      → AllShort fuel (w ∷ ws)
      → NoBar (w ∷ ws)
      → run_words fuel cmds m (length (w ∷ ws)) argv argv1
        ≡ some (single (lookup cmds w (last_word w ws)) (length (w ∷ ws)) argv)
  unfolding run_words run_single check_pipe_command
  run_words-single w ws all h nobar =
      rw
        (
          find_pipe-pipe_at fuel m argv 0 (w ∷ ws) all h,
          pipe_at-none 0 (w ∷ ws) nobar,
          parse-words w ws argv all h.0,
        )
        refl

  -- The array `argv1` behind `checkPipeCommand`.
  behind_pipe : ℕ → ℕ → ℕ → ℕ
  behind_pipe total i k = if ltb (i + 1 + k) total then argv (i + 1 + k) else argv1 k

  behind_pipe-inside :
      (total i k : ℕ) → i + 1 + k < total → behind_pipe total i (0 + k) ≡ argv (0 + i + 1 + k)
  unfolding behind_pipe
  behind_pipe-inside total i k h = ground arith

  run_words-piped :
      (l : List ℕ) (ls : List (List ℕ)) (w : List ℕ) (ws : List (List ℕ))
      → ReadsAll m argv 0 ((l ∷ ls) ++ (bar ∷ w ∷ ws))
      → AllShort fuel ((l ∷ ls) ++ (bar ∷ w ∷ ws))
      → NoBar (l ∷ ls)
      → (right : ℕ → ℕ) × (run_words fuel cmds m (length ((l ∷ ls) ++ (bar ∷ w ∷ ws))) argv argv1
          ≡ some (
              piped
                (lookup cmds l (last_word l ls))
                (lookup cmds w (last_word w ws))
                (length (l ∷ ls))
                (length (w ∷ ws))
                argv
                right))
        × ReadsAll m argv 0 (l ∷ ls)
        × ReadsAll m right 0 (w ∷ ws)
  unfolding run_words run_piped check_pipe_command behind_pipe
  run_words-piped l ls w ws all h nobar =
      let total = length ((l ∷ ls) ++ (bar ∷ w ∷ ws)) in
      let right = behind_pipe total (length (l ∷ ls)) in
      let size : total ≡ suc (length ls) + suc (suc (length ws)) =
        length-append (l ∷ ls) (bar ∷ w ∷ ws) in
      let sides = ReadsAll-split m argv 0 (l ∷ ls) (bar ∷ w ∷ ws) all in
      let shorts = All-split (λ v. Short fuel v) (l ∷ ls) (bar ∷ w ∷ ws) h in
      let left_reads : ReadsAll m argv 0 (l ∷ ls) = sides.0 in
      let right_reads : ReadsAll m right 0 (w ∷ ws) =
        ReadsAll-moved m argv right (0 + length (l ∷ ls) + 1) 0 (w ∷ ws)
          (λ k lt. behind_pipe-inside total (length (l ∷ ls)) k (omega (arith, size))) sides.1.1 in
      let from_0 : 0 + suc (length ls) ≡ suc (length ls) = omega arith in
      let at_bar : pipe_at 0 ((l ∷ ls) ++ (bar ∷ w ∷ ws)) ≡ some (suc (length ls)) =
        pipe_at-some 0 (l ∷ ls) (w ∷ ws) nobar ∙ ap some from_0 in
      let rest : total - suc (length ls) - 1 ≡ suc (length ws) = omega (arith, size) in
      (
        right,
        rw
            (
              find_pipe-pipe_at fuel m argv 0 ((l ∷ ls) ++ (bar ∷ w ∷ ws)) all h,
              at_bar,
              parse-words l ls argv left_reads shorts.0.0,
              rest,
              parse-words w ws right right_reads shorts.1.1.0,
            )
            refl,
        left_reads,
        right_reads,
      )

module _ (fuel : ℕ) (cmds : List Command) (input : Text) (argv0 argv1 : ℕ → ℕ) (line : List ℕ)
    (r : Reads input 0 line) (short : Short fuel line) (named : Named cmds) where
  -- A line without the word "|", with fewer bytes than there is fuel, comes to the command that its
  -- first word names, with all its words as arguments; it is unknown where none has this name. It runs
  -- in the background exactly if the last word starts with '&'.
  pub run_split-single :
      NoBar (all_words (words 63 line))
      → (m : Text) × (argv : ℕ → ℕ) × (run_split fuel cmds input argv0 argv1
          ≡ some (
            m,
            single
                (lookup cmds (words 63 line).0 (last_word (words 63 line).0 (words 63 line).1))
                (length (all_words (words 63 line)))
                argv,
          ))
        × ReadsAll m argv 0 (all_words (words 63 line))
  unfolding run_split
  run_split-single nobar =
      let (m, argv, run, all) = split-words fuel 63 input argv0 line r short.0 (omega arith) in
      let (sh, shs) = words-Short fuel 63 line short in
      let turn = run_words-single fuel cmds m argv argv1 named _ _ all (sh, shs) nobar in
      (m, argv, rw (run, turn) refl, all)

  -- A line with the word "|" between other words comes to the two commands that the first word and
  -- the word behind the first "|" name, each with the words on its side and the mark of its last word;
  -- it is not found where one of the names is unknown. Where `sys_pipe` works, the shell creates two
  -- processes, with as many arguments as the first side and the second side have words, and three more
  -- each; it creates none where a name is unknown. The first comes to the foreground if both names are
  -- known and the second command is not marked; no other process ever does.
  pub run_split-piped :
      (l : List ℕ) (ls : List (List ℕ)) (w : List ℕ) (ws : List (List ℕ)) (places : Places)
      (read_end write_end pid0 pid1 : ℕ)
      → all_words (words 63 line) ≡ (l ∷ ls) ++ (bar ∷ w ∷ ws)
      → NoBar (l ∷ ls)
      → let c0 = lookup cmds l (last_word l ls) in
        let c1 = lookup cmds w (last_word w ws) in
        let argc0 = length (l ∷ ls) in
        let argc1 = length (w ∷ ws) in
        (m : Text) × (left : ℕ → ℕ) × (right : ℕ → ℕ) × (turn : Turn) × (run_split fuel cmds input
            argv0 argv1
          ≡ some (m, turn))
        × PipedTurn argc0 argc1 left right c0 c1 turn
        × ReadsAll m left 0 (l ∷ ls)
        × ReadsAll m right 0 (w ∷ ws)
        × (let done = run_turn places (some (read_end, write_end)) pid0 pid1 turn in
            (created done.0 ≡ (if known c0 && known c1 then (argc0 + 3) ∷ (argc1 + 3) ∷ [] else []))
            × (shown done.0 ≡ in_front c0 c1 pid0))
  unfolding run_split
  run_split-piped l ls w ws places read_end write_end pid0 pid1 cut nobar =
      let (m, argv, run, all) = split-words fuel 63 input argv0 line r short.0 (omega arith) in
      let (sh, shs) = words-Short fuel 63 line short in
      let all' : ReadsAll m argv 0 ((l ∷ ls) ++ (bar ∷ w ∷ ws)) =
        subst (λ v. ReadsAll m argv 0 v) cut all in
      let short' : AllShort fuel ((l ∷ ls) ++ (bar ∷ w ∷ ws)) =
        subst (λ v. AllShort fuel v) cut (sh, shs) in
      let (right, turn, reads_l, reads_r) =
        run_words-piped fuel cmds m argv argv1 named l ls w ws all' short' nobar in
      let c0 = lookup cmds l (last_word l ls) in
      let c1 = lookup cmds w (last_word w ws) in
      let known_turn = piped-PipedTurn c0 c1 (length (l ∷ ls)) (length (w ∷ ws)) argv right in
      let did = PipedTurn-calls places read_end write_end pid0 pid1 known_turn in
      (
        m,
        argv,
        right,
        piped c0 c1 (length (l ∷ ls)) (length (w ∷ ws)) argv right,
        rw (subst (λ v. split fuel input argv0 64 ≡ some (m, argv, length v)) cut run, turn) refl,
        known_turn,
        reads_l,
        reads_r,
        did,
      )
