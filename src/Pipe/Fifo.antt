-- ===== src/Pipe/Fifo.antt =====
-- The bytes that a pipe holds, in the order in which they were written.
use tpe2_so.Base.{
  ℕ, zero, suc, ◌+◌, ◌-◌, ◌%◌, ◌^◌, ◌≤◌, ◌<◌, ◌≡◌, List, [], ◌∷◌, ◌++◌, arith, add32, update,
  update_ne, ap,
}
use tpe2_so.Pipe.{Pipe, pipe_buffer, put}

-- How many bytes wait, by the two running indices, which wrap at 2 ^ 32.
abbrev pub used : Pipe → ℕ
used p = (p.write_idx + 2 ^ 32 - p.read_idx) % 2 ^ 32

-- `n` bytes of the buffer from a running index on.
unfoldable pub window : (ℕ → ℕ) → ℕ → ℕ → List ℕ
window buf r zero = []
window buf r (suc n) = buf (r % pipe_buffer) ∷ window buf (add32 r 1) n

unfoldable pub contents : Pipe → List ℕ
contents p = window p.buf p.read_idx (used p)

-- The indices are words, and at most a whole buffer waits.
pub record IsValid (p : Pipe) : Type 0 where
  pub read_word : p.read_idx < 2 ^ 32
  pub write_word : p.write_idx < 2 ^ 32
  pub fits : used p ≤ pipe_buffer

-- A write one past a window that is not a whole buffer extends it by the byte.
pub window-put :
    (buf : ℕ → ℕ) (r n w b : ℕ)
    → r < 2 ^ 32
    → n < pipe_buffer
    → w ≡ (r + n) % 2 ^ 32
    → window (update buf (w % pipe_buffer) b) r (suc n) ≡ window buf r n ++ (b ∷ [])
unfolding window
window-put buf r zero w b hr hn e = ap (λ (x : ℕ). x ∷ []) (ground arith)
window-put buf r (suc n) w b hr hn e =
    let tail = window-put buf (add32 r 1) n w b (omega arith) (omega arith) (omega arith) in
    rw (update_ne buf (w % pipe_buffer) b (r % pipe_buffer) (omega arith))
      (ap (λ l. buf (r % pipe_buffer) ∷ l) tail)

-- A pipe that is not full takes a byte behind those that it holds.
pub put_lem :
    (p : Pipe) (b : ℕ)
    → IsValid p
    → used p < pipe_buffer
    → IsValid (put p b)
      × (used (put p b) ≡ used p + 1)
      × (contents (put p b) ≡ contents p ++ (b ∷ []))
unfolding contents
put_lem p b v room =
    let more : used (put p b) ≡ suc (used p) = omega (arith, v) in
    (
      omega (arith, v),
      omega (arith, v),
      rw more
          (window-put p.buf p.read_idx (used p) p.write_idx b v.read_word room (omega (arith, v))),
    )
