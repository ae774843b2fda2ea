-- ===== src/Shell/Piped.antt =====
-- A line with two commands: which turn it comes to, and which processes the shell makes for it.
use tpe2_so.Base.{
  ℕ, zero, suc, ◌+◌, ◌≡◌, refl, Bool, true, false, ◌&&◌, Option, none, some, List, [], ◌∷◌,
  if◌then◌else◌,
}
use tpe2_so.Shell.{
  Turn, pipes, not_found, piped, Places, Call, to_decimal, create_process, map_std_fds, close,
  sem_post, change_priority, set_background, run_turn, run_piped_commands,
}

-- The turn for two commands, of which each has a handler and a mark if its name is known.
pub data PipedTurn (argc0 argc1 : ℕ) (argv0 argv1 : ℕ → ℕ)
    : Option (ℕ × Bool) → Option (ℕ × Bool) → Turn → Type 0 where
  both :
      (c0 c1 : ℕ × Bool)
      → PipedTurn argc0 argc1 argv0 argv1 (some c0) (some c1) (pipes c0 c1 argc0 argc1 argv0 argv1)
  first_unknown : (c1 : Option (ℕ × Bool)) → PipedTurn argc0 argc1 argv0 argv1 none c1 not_found
  second_unknown : (c0 : Option (ℕ × Bool)) → PipedTurn argc0 argc1 argv0 argv1 c0 none not_found

pub piped-PipedTurn :
    (c0 c1 : Option (ℕ × Bool)) (argc0 argc1 : ℕ) (argv0 argv1 : ℕ → ℕ)
    → PipedTurn argc0 argc1 argv0 argv1 c0 c1 (piped c0 c1 argc0 argc1 argv0 argv1)
unfolding piped
piped-PipedTurn none none argc0 argc1 argv0 argv1 = first_unknown none
piped-PipedTurn none (some c1) argc0 argc1 argv0 argv1 = first_unknown (some c1)
piped-PipedTurn (some c0) none argc0 argc1 argv0 argv1 = second_unknown (some c0)
piped-PipedTurn (some c0) (some c1) argc0 argc1 argv0 argv1 = both c0 c1

-- The processes that are created, by their numbers of arguments.
unfoldable pub created : List Call → List ℕ
created [] = []
created (create_process argc argv ∷ calls) = argc ∷ created calls
created (to_decimal v a ∷ calls) = created calls
created (map_std_fds pid a b ∷ calls) = created calls
created (close fd ∷ calls) = created calls
created (sem_post id ∷ calls) = created calls
created (change_priority pid p ∷ calls) = created calls
created (set_background pid b ∷ calls) = created calls

-- The processes that are put in the foreground.
unfoldable pub shown : List Call → List ℕ
shown [] = []
shown (set_background pid zero ∷ calls) = pid ∷ shown calls
shown (set_background pid (suc b) ∷ calls) = shown calls
shown (create_process argc argv ∷ calls) = shown calls
shown (to_decimal v a ∷ calls) = shown calls
shown (map_std_fds pid a b ∷ calls) = shown calls
shown (close fd ∷ calls) = shown calls
shown (sem_post id ∷ calls) = shown calls
shown (change_priority pid p ∷ calls) = shown calls

unfoldable pub known : Option (ℕ × Bool) → Bool
known none = false
known (some c) = true

-- The process in front when two commands run: the first, unless the second is marked.
unfoldable pub in_front : Option (ℕ × Bool) → Option (ℕ × Bool) → ℕ → List ℕ
in_front none c1 pid = []
in_front (some c0) none pid = []
in_front (some c0) (some (h1, true)) pid = []
in_front (some c0) (some (h1, false)) pid = pid ∷ []

module _ (places : Places) (read_end write_end pid0 pid1 : ℕ) where
  pub PipedTurn-calls :
      {argc0 argc1 : ℕ} {argv0 argv1 : ℕ → ℕ} {c0 c1 : Option (ℕ × Bool)} {turn : Turn}
      → PipedTurn argc0 argc1 argv0 argv1 c0 c1 turn
      → let done = run_turn places (some (read_end, write_end)) pid0 pid1 turn in
        (created done.0 ≡ (if known c0 && known c1 then (argc0 + 3) ∷ (argc1 + 3) ∷ [] else []))
        × (shown done.0 ≡ in_front c0 c1 pid0)
  unfolding run_turn run_piped_commands created shown known in_front
  PipedTurn-calls (both (h0, b0) (h1, true)) = (refl, refl)
  PipedTurn-calls (both (h0, b0) (h1, false)) = (refl, refl)
  PipedTurn-calls (first_unknown none) = (refl, refl)
  PipedTurn-calls (first_unknown (some c1)) = (refl, refl)
  PipedTurn-calls (second_unknown none) = (refl, refl)
  PipedTurn-calls (second_unknown (some c0)) = (refl, refl)
