-- ===== src/Shell/Lookup.antt =====
-- `parseCommand` and `checkPipeCommand` as searches among words.
use tpe2_so.Base.{
  ℕ, ◌+◌, ◌-◌, ◌≡◌, ◌≢◌, Bool, true, false, refl, Option, none, some, List, [], ◌∷◌, arith, length,
  All, ◌==◌, if◌then◌else◌,
}
use tpe2_so.Strings.{Text}
use tpe2_so.Strings.Equal.{Reads, Reads-shift, Reads-literal, Bytes, same_text, strcmp-same_text}
use tpe2_so.Shell.{Command, at_pointer, literal, parse_command, find_pipe}
use tpe2_so.Shell.Words.{ReadsAll, Short}

-- Whether the word starts with '&'.
unfoldable pub marked : List ℕ → Bool
marked [] = false
marked (c ∷ w) = c == b'&'

-- The first command with the name `w`, marked by the word `end`.
unfoldable pub lookup : List Command → List ℕ → List ℕ → Option (ℕ × Bool)
lookup [] w end = none
lookup (c ∷ cmds) w end =
    if same_text w c.name then some (c.handler, marked end) else lookup cmds w end

abbrev pub Named : List Command → Type 0
Named cmds = All (λ c. Bytes c.name × All (λ b. b ≢ 0) c.name) cmds

marked_lem : (m : Text) (p : ℕ) (w : List ℕ) → Reads m p w → (m p == b'&') ≡ marked w
unfolding marked
marked_lem m p [] e = rw e refl
marked_lem m p (c ∷ w) (e, nz, r) = rw e refl

some-if {ℓ} :
    {A : Type ℓ} (b : Bool) (x y : A) → (if b then some x else some y) ≡ some (if b then x else y)
some-if true x y = refl
some-if false x y = refl

pub at_pointer-Reads : (m : Text) (p : ℕ) (w : List ℕ) → Reads m p w → Reads (at_pointer m p) 0 w
at_pointer-Reads m p w r = let here : p + 0 ≡ p = omega arith in Reads-shift m p 0 w (rw here r)

-- Where the first argument is the word `w` and the last one is `end`, `parseCommand` returns the first
-- command with the name `w`, in the background exactly if `end` starts with '&'.
pub parse_command-lookup :
    (fuel : ℕ) (cmds : List Command) (m : Text) (argc : ℕ) (argv : ℕ → ℕ) (w end : List ℕ)
    → Reads m (argv 0) w
    → Reads m (argv (argc - 1)) end
    → Short fuel w
    → Named cmds
    → parse_command fuel cmds m argc argv ≡ some (lookup cmds w end)
unfolding parse_command lookup
parse_command-lookup fuel [] m argc argv w end r l h n = refl
parse_command-lookup fuel (c ∷ cmds) m argc argv w end r l h (n, ns) =
    let (z, run, iff) =
      strcmp-same_text fuel (at_pointer m (argv 0)) (literal c.name) 0 w c.name
        (at_pointer-Reads m (argv 0) w r) (Reads-literal c.name n.1) h.1 n.0 h.0 in
    rw
      (
        run,
        iff,
        marked_lem m (argv (argc - 1)) end l,
        parse_command-lookup fuel cmds m argc argv w end r l h ns,
      )
      (some-if (same_text w c.name) (some (c.handler, marked end)) (lookup cmds w end))

abbrev pub bar : List ℕ
bar = b'|' ∷ []

unfoldable pub pipe_at : ℕ → List (List ℕ) → Option ℕ
pipe_at i [] = none
pipe_at i (w ∷ ws) = if same_text w bar then some i else pipe_at (i + 1) ws

-- `checkPipeCommand` finds the first argument that is "|".
pub find_pipe-pipe_at :
    (fuel : ℕ) (m : Text) (argv : ℕ → ℕ) (i : ℕ) (ws : List (List ℕ))
    → ReadsAll m argv i ws
    → All (λ w. Short fuel w) ws
    → find_pipe fuel m argv i (length ws) ≡ some (pipe_at i ws)
unfolding find_pipe pipe_at
find_pipe-pipe_at fuel m argv i [] r h = refl
find_pipe-pipe_at fuel m argv i (w ∷ ws) (r, rs) (h, hs) =
    let (z, run, iff) =
      strcmp-same_text fuel (at_pointer m (argv i)) (literal bar) 0 w bar
        (at_pointer-Reads m (argv i) w r) (Reads-literal bar (omega arith, tt)) h.1
        (omega arith, tt) h.0 in
    rw (run, iff, find_pipe-pipe_at fuel m argv (i + 1) ws rs hs)
      (some-if (same_text w bar) (some i) (pipe_at (i + 1) ws))
