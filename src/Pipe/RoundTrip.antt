-- ===== src/Pipe/RoundTrip.antt =====
-- A write followed by a read, and what a read leaves undone.
use tpe2_so.Base.{
  ℕ, zero, suc, ◌+◌, ◌%◌, ◌≤◌, ◌≡◌, ◌≢◌, inl, inr, refl, true, List, [], ◌∷◌, ◌++◌, arith, length,
  add32, ap, ◌∙◌, All, sym, ne→==, length-append,
}
use mathlib.Core.List.{append-nil}
use tpe2_so.Pipe.{
  Pipe, pipe_buffer, put, eof, copy_out, write_loop, write_pipe, read_pipe, read_resume, read_done,
  WriteResult, write_refused, write_broken, write_blocks, write_done, Call, sem_post, wake,
}
use tpe2_so.Pipe.Fifo.{used, window, contents, IsValid}
use tpe2_so.Pipe.Transfer.{Wrote, write_loop-Wrote, copy_out-Copied}

length-window : (buf : ℕ → ℕ) (r n : ℕ) → length (window buf r n) ≡ n
unfolding window
length-window buf r zero = refl
length-window buf r (suc n) = ap suc (length-window buf (add32 r 1) n)

pub length-contents : (p : Pipe) → length (contents p) ≡ used p
unfolding contents
length-contents p = length-window p.buf p.read_idx (used p)

contents-zero : (p : Pipe) → used p ≡ 0 → contents p ≡ []
unfolding contents window
contents-zero p e = rw e

eq_nil : (xs : List ℕ) → length xs ≡ 0 → xs ≡ []
eq_nil [] h = refl
eq_nil (x ∷ xs) h = absurd (omega arith)

window-head :
    (buf : ℕ → ℕ) (r n : ℕ)
    → All (λ b. b ≢ eof) (window buf r n)
    → buf (r % pipe_buffer) ≡ eof
    → n ≡ 0
unfolding window
window-head buf r zero h e = refl
window-head buf r (suc n) h e = absurd (h.0 e)

All-right : (xs ys : List ℕ) → All (λ b. b ≢ eof) (xs ++ ys) → All (λ b. b ≢ eof) ys
All-right [] ys h = h
All-right (x ∷ xs) ys h = All-right xs ys h.1

left_empty :
    (q : Pipe)
    → All (λ b. b ≢ eof) (contents q)
    → q.buf (q.read_idx % pipe_buffer) ≡ eof
    → used q ≡ 0
unfolding contents
left_empty q h e = window-head q.buf q.read_idx (used q) h e

-- A copy of enough bytes takes all that a pipe without a byte 255 holds.
pub copy_out-All :
    (n : ℕ) (p : Pipe)
    → IsValid p
    → used p ≤ n
    → All (λ b. b ≢ eof) (contents p)
    → (copy_out n p).1 ≡ contents p
copy_out-All n p v le ok =
    let c = copy_out-Copied n p v in
    let out = copy_out n p in
    let ok' = All-right out.1 (contents out.0) (rw (← c.bytes) at ok) in
    let whole : length out.1 + length (contents out.0) ≡ used p =
      sym (length-append out.1 (contents out.0)) ∙ ap length c.bytes ∙ length-contents p in
    let none_left : used out.0 ≡ 0 = elim c.stops [
      | inl full ↦ omega (arith, length-contents out.0)
      | inr (inl empty) ↦ empty
      | inr (inr stop) ↦ left_empty out.0 ok' stop
    ] in
    sym (append-nil out.1) ∙ ap (λ l. out.1 ++ l) (sym (contents-zero out.0 none_left)) ∙ c.bytes

-- What a write of `bs` into `p` and then a read into a buffer of `n` bytes come to.
abbrev pub Carries : List ℕ → ℕ → ℕ → WriteResult → Type 0
Carries bs pid n (write_done q calls) =
    (r : Pipe) × (later : List Call) × (read_pipe q pid n ≡ read_done r bs later)
Carries bs pid n _ = ⊥

read_pipe-open :
    (q : Pipe) (pid n : ℕ)
    → q.read_open ≡ true
    → read_pipe q pid n ≡ read_resume (record q { read_pid = pid }) n
unfolding read_pipe
read_pipe-open q pid n h = ground arith

read_resume-some :
    (q : Pipe) (n : ℕ) (bs : List ℕ)
    → q.read_idx ≢ q.write_idx
    → (copy_out n (record q { read_pid = 0 })).1 ≡ bs
    → (r : Pipe) × (later : List Call) × (read_resume q n ≡ read_done r bs later)
unfolding read_resume
read_resume-some q n bs ne e =
    let out = copy_out n (record q { read_pid = 0 }) in
    let calls : List Call = wake out.0.write_pid ++ (sem_post out.0.write_pid ∷ []) in
    (out.0, calls, rw (ne→== q.read_idx q.write_idx ne) (ap (λ l. read_done out.0 l calls) e))

Carries-done :
    (q : Pipe) (bs : List ℕ) (pid n : ℕ)
    → IsValid q
    → q.read_open ≡ true
    → contents q ≡ bs
    → bs ≢ []
    → length bs ≤ n
    → All (λ b. b ≢ eof) bs
    → (r : Pipe) × (later : List Call) × (read_pipe q pid n ≡ read_done r bs later)
unfolding contents
Carries-done q bs pid n v open_end e ne le ok =
    let p' : Pipe = record q { read_pid = 0 } in
    let some_used : used q ≢ 0 = λ z. ne (sym e ∙ contents-zero q z) in
    let sized : used q ≡ length bs = sym (length-contents q) ∙ ap length e in
    let all : (copy_out n p').1 ≡ bs =
      copy_out-All n p' (omega (arith, v)) (omega (arith, sized)) (rw (← e) at ok) ∙ e in
    let (r, later, done) =
      read_resume-some (record q { read_pid = pid }) n bs (λ i. some_used (omega arith)) all in
    (r, later, read_pipe-open q pid n open_end ∙ done)

Carries-step :
    (p : Pipe) (bs : List ℕ) (pid n : ℕ) (w : WriteResult)
    → contents p ≡ []
    → length bs ≤ pipe_buffer
    → bs ≢ []
    → length bs ≤ n
    → All (λ b. b ≢ eof) bs
    → Wrote p bs w
    → ((q : Pipe) (calls : List Call) → w ≡ write_done q calls → q.read_open ≡ true)
    → Carries bs pid n w
Carries-step p bs pid n write_refused none_held small ne le ok h open_end = h
Carries-step p bs pid n (write_broken q calls) none_held small ne le ok h open_end = h
Carries-step p bs pid n (write_blocks q rest calls) none_held small ne le ok (v, u, some_rest, c)
      open_end =
    absurd (
      some_rest (
        eq_nil rest (
          omega (
            arith,
            length-append (contents q) rest,
            length-contents q,
            ap length (c ∙ ap (λ l. l ++ bs) none_held),
          ))))
Carries-step p bs pid n (write_done q calls) none_held small ne le ok (v, c) open_end =
    Carries-done q bs pid n v (open_end q calls refl) (c ∙ ap (λ l. l ++ bs) none_held) ne le ok

write_loop-read_open :
    (p : Pipe) (pid : ℕ) (bs : List ℕ) (q : Pipe) (calls : List Call)
    → write_loop p pid bs ≡ write_done q calls
    → q.read_open ≡ p.read_open
unfolding write_loop
write_loop-read_open p pid [] q calls h = ground arith
write_loop-read_open p pid (b ∷ bs) q calls h =
    ground (arith, write_loop-read_open (put (record p { write_pid = 0 }) b) pid bs q calls)

-- Bytes written to a valid empty pipe that is open at both ends are read back as they are, by a read
-- that completes, if there is one at least, they fit the pipe's buffer and the reader's, and none is
-- 255.
pub write_pipe-read_pipe :
    (p : Pipe) (writer reader n : ℕ) (bs : List ℕ)
    → IsValid p
    → p.read_open ≡ true
    → p.write_open ≡ true
    → contents p ≡ []
    → bs ≢ []
    → length bs ≤ pipe_buffer
    → length bs ≤ n
    → All (λ b. b ≢ eof) bs
    → Carries bs reader n (write_pipe p writer bs)
unfolding write_pipe
write_pipe-read_pipe p writer reader n bs v ro wo empty ne small le ok =
    simp (ro, wo)
      (Carries-step p bs reader n (write_loop p writer bs) empty small ne le ok
        (write_loop-Wrote p writer bs v ro)
        (λ q calls h. write_loop-read_open p writer bs q calls h ∙ ro))

-- No call of the list posts the semaphore `id`.
abbrev pub NotPosted : ℕ → List Call → Type 0
NotPosted id [] = Unit
NotPosted id (sem_post i ∷ calls) = (i ≢ id) × NotPosted id calls
NotPosted id (_ ∷ calls) = NotPosted id calls

copy_out-write_pid : (n : ℕ) (p : Pipe) → (copy_out n p).0.write_pid ≡ p.write_pid
unfolding copy_out
copy_out-write_pid zero p = refl
copy_out-write_pid (suc n) p =
    ground (arith, copy_out-write_pid n (record p { read_idx = add32 p.read_idx 1 }))

-- A read that completes does not post the read semaphore that it waited on, unless the number of
-- that semaphore happens to be the process number of a blocked writer: it posts `writePID`.
pub read_pipe-keeps_lock :
    (p q : Pipe) (pid n : ℕ) (bytes : List ℕ) (calls : List Call)
    → read_pipe p pid n ≡ read_done q bytes calls
    → p.write_pid ≢ p.read_queue
    → NotPosted p.read_queue calls
unfolding read_pipe read_resume
read_pipe-keeps_lock p q pid n bytes calls h ne =
    ground (arith, copy_out-write_pid n (record p { read_pid = 0 }))
