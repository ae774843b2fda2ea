-- ===== src/Shell/Tests.antt =====
-- Lines for the table of commands.
use tpe2_so.Base.{ℕ, ◌+◌, ◌≡◌, refl, true, false, some, List, [], ◌∷◌, arith, length}
use tpe2_so.Strings.{Text}
use tpe2_so.Strings.Equal.{Reads, same_text}
use tpe2_so.Shell.{Turn, Places, run_turn, single, literal, split, run_split}
use tpe2_so.Shell.Piped.{PipedTurn, created, shown, known, in_front}
use tpe2_so.Shell.Commands.{cmds}
use tpe2_so.Shell.Words.{ReadsAll, words, split-words}
use tpe2_so.Shell.Lookup.{Named, lookup, marked}
use tpe2_so.Shell.Line.{run_split-single, run_split-piped}

abbrev address : ℕ → ℕ
address i = 4194304 + i

count : length (cmds address) ≡ 21
count = refl

cmds-Named : Named (cmds address)
cmds-Named = omega arith

-- "ps &"
abbrev ps : List ℕ
ps = b'p' ∷ b's' ∷ b' ' ∷ b'&' ∷ []

ps-Reads : Reads (literal ps) 0 ps
ps-Reads = omega arith

split-words_example :
    (t : Text) × (argv : ℕ → ℕ) × (split 9 (literal ps) (λ i. 0) 64 ≡ some (t, argv, 2))
    × ReadsAll t argv 0 ((b'p' ∷ b's' ∷ []) ∷ (b'&' ∷ []) ∷ [])
unfolding words
split-words_example = split-words 9 63 (literal ps) (λ i. 0) ps ps-Reads (omega arith) (omega arith)

run_split-single_example :
    (m : Text) × (argv : ℕ → ℕ) × (run_split 9 (cmds address) (literal ps) (λ i. 0) (λ i. 0)
      ≡ some (m, Turn.runs (address 15) true 2 argv))
    × ReadsAll m argv 0 ((b'p' ∷ b's' ∷ []) ∷ (b'&' ∷ []) ∷ [])
unfolding words lookup marked same_text single
run_split-single_example =
    run_split-single 9 (cmds address) (literal ps) (λ i. 0) (λ i. 0) ps ps-Reads (omega arith)
      cmds-Named (refl, (refl, tt))

-- "ps | wc"
abbrev ps_wc : List ℕ
ps_wc = b'p' ∷ b's' ∷ b' ' ∷ b'|' ∷ b' ' ∷ b'w' ∷ b'c' ∷ []

abbrev places : Places
places = record {
  shell_pid = 1;
  handler0_str = 600;
  handler1_str = 630;
  pipe_out_str = 660;
  pipe_in_str = 690;
  text_0 = 720;
  text_1 = 722;
  text_minus_1 = 724;
}

run_split-piped_example :
    (m : Text) × (left : ℕ → ℕ) × (right : ℕ → ℕ) × (turn : Turn) × (run_split 9
        (cmds address)
        (literal ps_wc)
        (λ i. 0)
        (λ i. 0)
      ≡ some (m, turn))
    × PipedTurn 1 1 left right (some (address 15, false)) (some (address 13, false)) turn
    × ReadsAll m left 0 ((b'p' ∷ b's' ∷ []) ∷ [])
    × ReadsAll m right 0 ((b'w' ∷ b'c' ∷ []) ∷ [])
    × (let done = run_turn places (some (3, 4)) 5 6 turn in
        (created done.0 ≡ 4 ∷ 4 ∷ []) × (shown done.0 ≡ 5 ∷ []))
unfolding words lookup marked same_text known in_front
run_split-piped_example =
    run_split-piped 9 (cmds address) (literal ps_wc) (λ i. 0) (λ i. 0) ps_wc (omega arith)
      (omega arith) cmds-Named (b'p' ∷ b's' ∷ []) [] (b'w' ∷ b'c' ∷ []) [] places 3 4 5 6 refl
      (refl, tt)
