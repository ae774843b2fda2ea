-- ===== src/Keyboard/Reading.antt =====
-- The readers of the keyboard: they take the oldest key, or the first with a character.
use tpe2_so.Base.{
  ℕ, zero, suc, ◌+◌, ◌-◌, ◌<◌, ◌≡◌, ◌≢◌, inl, inr, refl, ap, sym, ◌∙◌, false, Option, some, List,
  [], ◌∷◌, ◌++◌, All, arith, ◌==◌, get_or, ne→==, ==-cases, ==_iff, Bool-cases,
}
use mathlib.Core.Path.{subst}
use tpe2_so.Keyboard.{
  Keyboard, Waited, wrap, asleep, done, block, take_key, read_key, ascii_of, read_ascii,
}
use tpe2_so.Keyboard.Queue.{IsValid, waiting, window}
use tpe2_so.Keyboard.Keys.{ascii_table}

-- The state that `readKey` leaves when a key waits.
abbrev taken : Keyboard → Keyboard
taken s = record s {
  blocked_pid = 0;
  keys_to_read = s.keys_to_read - 1;
  read_idx = wrap (s.read_idx + 1);
}

taken_lem :
    (pid : ℕ) (s : Keyboard)
    → s.keys_to_read ≢ 0
    → read_key pid s ≡ done (taken s) (s.buffer s.read_idx)
unfolding read_key take_key
taken_lem pid s some_key = rw (ne→== s.keys_to_read 0 some_key) refl

taken-IsValid : (s : Keyboard) → IsValid s → s.keys_to_read ≢ 0 → IsValid (taken s)
taken-IsValid s v some_key = record {
  read_in = ground (arith, v);
  write_in = v.write_in;
  fits = omega (arith, v);
  apart = ground (arith, v);
}

taken-waiting :
    (s : Keyboard) → s.keys_to_read ≢ 0 → waiting s ≡ s.buffer s.read_idx ∷ waiting (taken s)
unfolding waiting window
taken-waiting s some_key =
    let count : s.keys_to_read ≡ suc (s.keys_to_read - 1) = omega arith in
    ap (window s.buffer s.read_idx) count

-- Only the state of the keys counts for the modifiers.
ascii_of-same : (s t : Keyboard) (k : ℕ) → t.key_state ≡ s.key_state → ascii_of s k ≡ ascii_of t k
unfolding ascii_of
ascii_of-same s t k e = rw e refl

absurd_char : (c : ℕ) → c ≡ 0 → (c == 0) ≡ false → ⊥
absurd_char c z char = ground arith

abbrev slept : ℕ → Keyboard → Keyboard
slept pid s = record s { blocked_pid = pid; write_idx = s.read_idx }

read_ascii-empty :
    (fuel pid : ℕ) (s : Keyboard)
    → s.keys_to_read ≡ 0
    → read_ascii (suc fuel) pid s ≡ some (asleep (slept pid s) (block pid ∷ []))
unfolding read_ascii read_key take_key
read_ascii-empty fuel pid s empty = ground arith

asleep-IsValid : (pid : ℕ) (s : Keyboard) → IsValid s → s.keys_to_read ≡ 0 → IsValid (slept pid s)
asleep-IsValid pid s v empty = record {
  read_in = v.read_in;
  write_in = v.read_in;
  fits = v.fits;
  apart = omega (arith, v.read_in);
}

-- Where the indices fit the count and a key waits, `readKey` returns at once with the key that has
-- waited longest; the others still wait, in their order, and the indices fit the count.
read_key-waiting :
    (pid : ℕ) (s : Keyboard)
    → IsValid s
    → s.keys_to_read ≢ 0
    → (k : ℕ) × (t : Keyboard) × (read_key pid s ≡ done t k)
      × IsValid t
      × (waiting s ≡ k ∷ waiting t)
read_key-waiting pid s v some_key = (
  s.buffer s.read_idx,
  taken s,
  taken_lem pid s some_key,
  taken-IsValid s v some_key,
  taken-waiting s some_key,
)

-- A key without a character in the table.
abbrev pub NoChar : ℕ → Type 0
NoChar k = get_or ascii_table k 0 ≡ 0

-- What `readAscii` comes to. It sleeps once every key that waited has been skipped; or it takes the
-- first key with a character, which the modifiers turn into the result, and leaves those behind it.
pub data ReadsAscii (pid : ℕ) (s : Keyboard) : Option (Waited ℕ) → Type 0 where
  sleeps :
      {t : Keyboard}
      → All NoChar (waiting s)
      → waiting t ≡ []
      → IsValid t
      → t.key_state ≡ s.key_state
      → ReadsAscii pid s (some (asleep t (block pid ∷ [])))
  reads :
      {t : Keyboard} (skipped : List ℕ) (k : ℕ)
      → All NoChar skipped
      → ¬ NoChar k
      → waiting s ≡ skipped ++ (k ∷ waiting t)
      → IsValid t
      → t.key_state ≡ s.key_state
      → ReadsAscii pid s (some (done t (ascii_of s k)))

-- A key that is skipped.
ReadsAscii-skip :
    (pid : ℕ) (s t : Keyboard) (k : ℕ) {o : Option (Waited ℕ)}
    → NoChar k
    → waiting s ≡ k ∷ waiting t
    → t.key_state ≡ s.key_state
    → ReadsAscii pid t o
    → ReadsAscii pid s o
ReadsAscii-skip pid s t k skip w same (sleeps all none_left v state) =
    sleeps (rw w (skip, all)) none_left v (state ∙ same)
ReadsAscii-skip pid s t k skip w same (reads {t = u} skipped key all char w' v state) =
    let this : ascii_of s key ≡ ascii_of t key = ascii_of-same s t key same in
    subst (λ c. ReadsAscii pid s (some (done u c))) this
      (reads (k ∷ skipped) key (skip, all) char (w ∙ ap (λ l. k ∷ l) w') v (state ∙ same))

-- Where the indices fit the count, and there is more fuel than keys wait: the loop of `readAscii` skips
-- the keys without a character. Where all are, the process sleeps, and nothing waits; else it takes the
-- first key with a character, the result is what the modifiers make of that key, and the keys behind
-- it still wait. The indices fit the count, and no key changes its state.
pub read_ascii-ReadsAscii :
    (fuel pid : ℕ) (s : Keyboard)
    → IsValid s
    → s.keys_to_read < fuel
    → ReadsAscii pid s (read_ascii fuel pid s)
unfolding read_ascii read_key take_key waiting window
read_ascii-ReadsAscii zero pid s v h = absurd (omega arith)
read_ascii-ReadsAscii (suc fuel) pid s v h = elim (==-cases s.keys_to_read 0) [
  | inl empty ↦
      let nothing : waiting s ≡ [] = ap (window s.buffer s.read_idx) empty in
      subst (λ o. ReadsAscii pid s o) (sym (read_ascii-empty fuel pid s empty))
        (sleeps (subst (λ l. All NoChar l) (sym nothing) tt) (ap (window s.buffer s.read_idx) empty)
          (asleep-IsValid pid s v empty) refl)
  | inr key ↦
      let k = s.buffer s.read_idx in
      rw (ne→== s.keys_to_read 0 key, read_ascii)
        (elim (Bool-cases (get_or ascii_table k 0 == 0)) [
          | inl skip ↦ rw skip (
              ReadsAscii-skip pid s (taken s) k ((==_iff (get_or ascii_table k 0) 0).0 skip)
                (taken-waiting s key) refl
                (read_ascii-ReadsAscii fuel pid (taken s) (taken-IsValid s v key) (omega arith)))
          | inr char ↦ rw char (
              subst (λ c. ReadsAscii pid s (some (done (taken s) c)))
                (ascii_of-same s (taken s) k refl)
                (reads [] k tt (λ z. absurd (absurd_char (get_or ascii_table k 0) z char))
                  (taken-waiting s key) (taken-IsValid s v key) refl))
        ])
]
