-- ===== src/Syscall/Read/Line.antt =====
-- The terminal's line discipline against an editor of lists.
use tpe2_so.Base.{
  ℕ, zero, suc, ◌+◌, ◌-◌, ◌≤◌, ◌<◌, ◌≡◌, ◌≢◌, refl, ap, inl, inr, Bool, false, List, [], ◌∷◌, ◌++◌,
  arith, map, ◌==◌, if◌then◌else◌, update, update_self, update_ne, length, ==-cases, ne→==, lt→ltb,
}
use tpe2_so.Syscall.Read.{
  stdin, sem_read, sys_read_handler, terminal, sem_open, sem_wait, sem_post, turn, Terminal,
  returns, read_line,
}

-- The first `n` bytes of a buffer.
abbrev pub text : (ℕ → ℕ) → ℕ → List ℕ
text buffer zero = []
text buffer (suc n) = text buffer n ++ (buffer n ∷ [])

abbrev pub without_last : List ℕ → List ℕ
without_last [] = []
without_last (x ∷ []) = []
without_last (x ∷ y ∷ l) = x ∷ without_last (y ∷ l)

-- The line that keys make of a line: a tab does nothing, a backspace takes the last byte away.
abbrev pub edited : List ℕ → List ℕ → List ℕ
edited line [] = line
edited line (c ∷ keys) =
    edited (if c == 9 then line else (if c == 8 then without_last line else line ++ (c ∷ []))) keys

-- Keys that do not end a line: none is Ctrl+C, Ctrl+D, Enter or the byte -1.
abbrev pub Plain : List ℕ → Type 0
Plain [] = Unit {0}
Plain (c ∷ keys) = (c ≢ 3) × (c ≢ 4) × (c ≢ 10) × (c ≢ 255) × Plain keys

-- Keys that come while the process is in the foreground.
abbrev pub foreground : ℕ → ℕ × Bool
foreground c = (c, false)

without_last-append : (l : List ℕ) (x : ℕ) → without_last (l ++ (x ∷ [])) ≡ l
without_last-append [] x = refl
without_last-append (y ∷ []) x = refl
without_last-append (y ∷ z ∷ l) x = ap (λ t. y ∷ t) (without_last-append (z ∷ l) x)

text-update : (buffer : ℕ → ℕ) (n i c : ℕ) → n ≤ i → text (update buffer i c) n ≡ text buffer n
text-update buffer zero i c h = refl
text-update buffer (suc n) i c h =
    rw (text-update buffer n i c (omega arith), update_ne buffer i c n (omega arith)) refl

without_last-text : (buffer : ℕ → ℕ) (i : ℕ) → without_last (text buffer i) ≡ text buffer (i - 1)
without_last-text buffer zero = refl
without_last-text buffer (suc i) =
    let before : suc i - 1 ≡ i = omega arith in
    rw before (without_last-append (text buffer i) (buffer i))

text-update_next :
    (buffer : ℕ → ℕ) (i c : ℕ) → text (update buffer i c) (suc i) ≡ text buffer i ++ (c ∷ [])
text-update_next buffer i c =
    rw (text-update buffer i i c (omega arith), update_self buffer i c) refl

-- A line that was typed out: so many bytes are returned, the edited line and its Enter.
pub record Entered (line : List ℕ) (out : Terminal) : Type 0 where
  pub size : ℕ
  pub buffer : ℕ → ℕ
  pub echo : List ℕ
  pub result : out ≡ returns (size + 1) buffer echo
  pub holds : text buffer size ≡ line
  pub enter : buffer size ≡ 10

read_line-Entered :
    (pid bytes i : ℕ) (keys : List ℕ) (more : List (ℕ × Bool)) (buffer : ℕ → ℕ) (echo : List ℕ)
    → Plain keys
    → i + length keys < bytes
    → Entered
        (edited (text buffer i) keys)
        (read_line pid bytes (map foreground keys ++ (foreground 10 ∷ more)) i buffer echo)
unfolding read_line turn
read_line-Entered pid bytes i [] more buffer echo plain room =
    rw (lt→ltb i bytes (omega arith)) (record {
      size = i;
      buffer = update buffer i 10;
      echo = echo ++ (10 ∷ []);
      result = refl;
      holds = text-update buffer i i 10 (omega arith);
      enter = update_self buffer i 10;
    })
read_line-Entered pid bytes i (c ∷ keys) more buffer echo (n3, n4, n10, n255, plain) room =
    rw (lt→ltb i bytes (omega arith), ne→== c 3 n3, ne→== c 4 n4, ne→== c 255 n255, ne→== c 10 n10)
      (elim (==-cases c 9) [
        | inl tab ↦
            rw tab (read_line-Entered pid bytes i keys more buffer (echo ++ []) plain (omega arith))
        | inr no_tab ↦ rw (ne→== c 9 no_tab) (elim (==-cases c 8) [
          | inl back ↦ rw back (elim (==-cases i 0) [
            | inl z ↦
                rw z
                  (read_line-Entered pid bytes 0 keys more buffer (echo ++ []) plain (omega arith))
            | inr nz ↦
                rw (ne→== i 0 nz, without_last-text buffer i)
                  (read_line-Entered pid bytes (i - 1) keys more buffer (echo ++ (8 ∷ [])) plain
                    (omega arith))
          ])
          | inr no_back ↦ rw (ne→== c 8 no_back) (
              let next : i + 1 ≡ suc i = omega arith in
              rw (← text-update_next buffer i c, next)
                (read_line-Entered pid bytes (suc i) keys more (update buffer i c)
                  (echo ++ (c ∷ [])) plain (omega arith)))
        ])
      ])

-- A process in the foreground that reads the terminal in the line mode, where the keys that are typed
-- before Enter are plain and fewer than the bytes of its buffer: the call opens and takes the
-- semaphore, returns the line as the keys edited it with its Enter, and posts the semaphore.
pub sys_read_handler-Entered :
    (pid bytes : ℕ) (keys : List ℕ) (more : List (ℕ × Bool)) (buffer : ℕ → ℕ)
    → Plain keys
    → length keys < bytes
    → (out : Terminal) × (sys_read_handler stdin pid false false
          (map foreground keys ++ (foreground 10 ∷ more))
          buffer
          bytes
        ≡ terminal (sem_open sem_read 1 ∷ sem_wait sem_read ∷ []) out (sem_post sem_read ∷ []))
      × Entered (edited [] keys) out
unfolding sys_read_handler
sys_read_handler-Entered pid bytes keys more buffer plain room =
    (_, refl, read_line-Entered pid bytes 0 keys more buffer [] plain (omega arith))
