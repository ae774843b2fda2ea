-- ===== src/Pipe/Transfer.antt =====
-- What goes into a pipe comes out of it: no byte is lost, repeated or moved.
use tpe2_so.Base.{
  ℕ, zero, suc, ◌%◌, ◌≤◌, ◌<◌, ◌≡◌, ◌≢◌, ◌⊎◌, inl, inr, refl, true, false, List, [], ◌∷◌, ◌++◌,
  arith, length, add32, ap, ◌∙◌, Bool-cases, ==_iff, All, sym, ◌==◌,
}
use mathlib.Core.List.{append_assoc, append-nil}
use tpe2_so.Pipe.{
  Pipe, pipe_buffer, put, is_full, eof, copy_out, write_loop, WriteResult, write_refused,
  write_broken, write_blocks, write_done,
}
use tpe2_so.Pipe.Fifo.{used, window, contents, IsValid, put_lem}

-- What a write of `bs` into `p` comes to, with a reader at the other end.
abbrev pub Wrote : Pipe → List ℕ → WriteResult → Type 0
Wrote p bs write_refused = ⊥
Wrote p bs (write_broken q calls) = ⊥
Wrote p bs (write_blocks q rest calls) =
    IsValid q × (used q ≡ pipe_buffer) × (rest ≢ []) × (contents q ++ rest ≡ contents p ++ bs)
Wrote p bs (write_done q calls) = IsValid q × (contents q ≡ contents p ++ bs)

full_iff : (p : Pipe) → IsValid p → is_full p ≡ true → used p ≡ pipe_buffer
full_iff p v h = ground arith

room_iff : (p : Pipe) → IsValid p → is_full p ≡ false → used p < pipe_buffer
room_iff p v h = ground arith

Wrote-cons :
    (p q : Pipe) (b : ℕ) (bs : List ℕ) (r : WriteResult)
    → contents q ≡ contents p ++ (b ∷ [])
    → Wrote q bs r
    → Wrote p (b ∷ bs) r
Wrote-cons p q b bs write_refused e h = h
Wrote-cons p q b bs (write_broken s calls) e h = h
Wrote-cons p q b bs (write_blocks s rest calls) e (v, u, n, c) =
    (v, u, n, c ∙ ap (λ l. l ++ bs) e ∙ append_assoc (contents p) (b ∷ []) bs)
Wrote-cons p q b bs (write_done s calls) e (v, c) =
    (v, c ∙ ap (λ l. l ++ bs) e ∙ append_assoc (contents p) (b ∷ []) bs)

-- With the read end open, the loop of `writePipe` on a valid pipe appends all its bytes in order, or
-- fills the buffer and blocks: what the pipe then holds and the bytes that are left, of which there is
-- one at least, are what it held and all the bytes.
pub write_loop-Wrote :
    (p : Pipe) (pid : ℕ) (bs : List ℕ)
    → IsValid p
    → p.read_open ≡ true
    → Wrote p bs (write_loop p pid bs)
unfolding write_loop contents
write_loop-Wrote p pid [] v open_end = (v, sym (append-nil _))
write_loop-Wrote p pid (b ∷ bs) v open_end = elim (Bool-cases (is_full p)) [
  | inl full ↦ simp (full, open_end) (omega arith, full_iff p v full, λ e. cc, refl)
  | inr room ↦
      let p' : Pipe = record p { write_pid = 0 } in
      let (v', u, c) = put_lem p' b (omega arith) (room_iff p v room) in
      rw room (
        Wrote-cons p (put p' b) b bs (write_loop (put p' b) pid bs) c
          (write_loop-Wrote (put p' b) pid bs v' open_end))
]

-- What the copying loop of `readPipe` comes to.
pub record Copied (p : Pipe) (n : ℕ) (out : Pipe × List ℕ) : Type 0 where
  pub valid : IsValid out.0
  pub bytes : out.1 ++ contents out.0 ≡ contents p
  pub data_only : All (λ b. b ≢ eof) out.1
  pub stops :
      (length out.1 ≡ n) ⊎ (used out.0 ≡ 0) ⊎ (out.0.buf (out.0.read_idx % pipe_buffer) ≡ eof)
  pub at_most : length out.1 ≤ n
  pub buf : out.0.buf ≡ p.buf

contents-step :
    (p : Pipe) (n : ℕ)
    → used p ≡ suc n
    → contents p ≡ p.buf (p.read_idx % pipe_buffer) ∷ window p.buf (add32 p.read_idx 1) n
unfolding contents window
contents-step p n e = rw e

contents-advance :
    (p : Pipe)
    → IsValid p
    → p.read_idx ≢ p.write_idx
    → contents p
      ≡ p.buf (p.read_idx % pipe_buffer) ∷ contents (record p { read_idx = add32 p.read_idx 1 })
unfolding contents
contents-advance p v ne =
    let n : ℕ = used (record p { read_idx = add32 p.read_idx 1 }) in
    contents-step p n (omega (arith, v))

-- On a valid pipe the copying loop of `readPipe` takes bytes from the front, in order and at most as
-- many as the count: they and what stays are what the pipe held. None of them is 255, and the loop
-- stops at the count, at an empty pipe, or at a byte 255.
pub copy_out-Copied : (n : ℕ) (p : Pipe) → IsValid p → Copied p n (copy_out n p)
unfolding copy_out
copy_out-Copied zero p v = record {
  valid = v;
  bytes = refl;
  data_only = tt;
  stops = inl refl;
  at_most = omega arith;
  buf = refl;
}
copy_out-Copied (suc n) p v = elim (Bool-cases (p.read_idx == p.write_idx)) [
  | inl empty ↦ rw empty (record {
    valid = v;
    bytes = refl;
    data_only = tt;
    stops = inr (inl (ground (arith, v)));
    at_most = omega arith;
    buf = refl;
  })
  | inr more ↦ elim (Bool-cases (p.buf (p.read_idx % pipe_buffer) == eof)) [
    | inl stop ↦
        rw (more, stop)
          (record {
            valid = v;
            bytes = refl;
            data_only = tt;
            stops = inr (inr ((==_iff _ eof).0 stop));
            at_most = omega arith;
            buf = refl;
          })
    | inr go ↦
        let p' : Pipe = record p { read_idx = add32 p.read_idx 1 } in
        let v' : IsValid p' = ground (arith, v) in
        let rest = copy_out-Copied n p' v' in
        rw (more, go)
          (record {
            valid = rest.valid;
            bytes =
                ap (λ l. p.buf (p.read_idx % pipe_buffer) ∷ l) rest.bytes
                ∙ sym (contents-advance p v (ground arith));
            data_only = (ground arith, rest.data_only);
            stops = ground (arith, rest.stops);
            at_most = omega (arith, rest.at_most);
            buf = rest.buf;
          })
  ]
]
