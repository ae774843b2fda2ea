-- ===== src/NamedPipe/Making.antt =====
-- Making a named pipe, and opening it.
use tpe2_so.Base.{
  ℕ, ◌%◌, ◌^◌, ◌<◌, ◌≡◌, ◌≢◌, inl, inr, refl, ap, sym, ◌∙◌, List, arith, update, ==-cases, ne→==,
}
use tpe2_so.NamedPipe.{
  Fifo, Files, Call, Opening, failed, opened, max_fifo, Scan, full, slot, scan, fill_slot,
  place_fifo, mk_fifo, open_pipe,
}
use tpe2_so.NamedPipe.Creation.{OpenedPipe, open_pipe-OpenedPipe}
use tpe2_so.NamedPipe.Names.{Distinct, scan-slot, failed-ne-done}

-- What a successful `mkFifo` comes to, with the state `u` between the pipe and the entry.
record MadeFifo (id a : ℕ) (s t : Files) (k r w : ℕ) (u : Files) : Type 0 where
  named : id ≢ 0
  inside : k < max_fifo
  was_free : (s.fifos k).id ≡ 0
  absent : (m : ℕ) → m < max_fifo → (s.fifos m).id ≢ id
  piped : OpenedPipe s u a r w
  result : t ≡ record u {
    fifos = update u.fifos k (record { id = id; read_fd = r % 2 ^ 16; write_fd = w % 2 ^ 16 });
  }

abbrev Success : ℕ → ℕ → Files → Files → Type 0
Success id a s t = (k : ℕ) × (r : ℕ) × (w : ℕ) × (u : Files) × MadeFifo id a s t k r w u

fill_slot-Success :
    (id k a : ℕ) (s t : Files) (calls : List Call)
    → id ≢ 0
    → k < max_fifo
    → (s.fifos k).id ≡ 0
    → ((m : ℕ) → m < max_fifo → (s.fifos m).id ≢ id)
    → fill_slot id k a s ≡ (t, 0, calls)
    → Success id a s t
unfolding fill_slot
fill_slot-Success id k a s t calls nz h z absent e = go (open_pipe a s) refl
  where
    go : (o : Opening) → open_pipe a s ≡ o → Success id a s t
    go (failed u c) q = absurd (
        let e' = rw (q, fill_slot) at e in
        omega (arith, ap (λ (x : Files × ℕ × List Call). x.1) e'))
    go (opened u r w c) q = (
      k,
      r,
      w,
      u,
      record {
        named = nz;
        inside = h;
        was_free = z;
        absent = absent;
        piped = open_pipe-OpenedPipe a s u r w c q;
        result = sym (ap (λ (x : Files × ℕ × List Call). x.0) (rw (q, fill_slot) at e));
      },
    )

place_fifo-Success :
    (id a : ℕ) (s t : Files) (calls : List Call) (c : Scan)
    → id ≢ 0
    → scan max_fifo 0 s.fifos id full ≡ c
    → place_fifo id a s c ≡ (t, 0, calls)
    → Success id a s t
unfolding place_fifo
place_fifo-Success id a s t calls (slot k) nz q e =
    let found = scan-slot max_fifo 0 max_fifo k s.fifos id full (omega arith) q in
    elim found.1 [
      | inl no_slot ↦ absurd (cc)
      | inr here ↦
          fill_slot-Success id k a s t calls nz here.0 here.1 (λ m h. found.0 m (omega arith) h) e
    ]
place_fifo-Success id a s t calls other nz q e = absurd (failed-ne-done e)

mk_fifo-Success :
    (id a : ℕ) (s t : Files) (calls : List Call) → mk_fifo id a s ≡ (t, 0, calls) → Success id a s t
unfolding mk_fifo
mk_fifo-Success id a s t calls e = elim (==-cases id 0) [
  | inl z ↦ absurd (failed-ne-done (rw z at e))
  | inr nz ↦
      place_fifo-Success id a s t calls (scan max_fifo 0 s.fifos id full) nz refl
        (rw (ne→== id 0 nz) at e)
]

-- The entry that `mkFifo` writes, in the table that it finds.
abbrev entry : ℕ → ℕ → ℕ → Fifo
entry id r w = record { id = id; read_fd = r % 2 ^ 16; write_fd = w % 2 ^ 16 }

MadeFifo-fifos :
    {id a k r w : ℕ} {s t u : Files}
    → MadeFifo id a s t k r w u
    → t.fifos ≡ update s.fifos k (entry id r w)
MadeFifo-fifos {id} {k} {r} {w} m =
    ap (λ (x : Files). x.fifos) m.result
    ∙ ap (λ (f : ℕ → Fifo). update f k (entry id r w)) m.piped.same_fifos

update-Distinct :
    (f : ℕ → Fifo) (k : ℕ) (v : Fifo)
    → Distinct f
    → ((m : ℕ) → m < max_fifo → (f m).id ≢ v.id)
    → Distinct (update f k v)
update-Distinct f k v d absent = record {
  apart = λ i j hi hj nz e. ground (arith, d.apart i j hi hj, absent i hi, absent j hj);
}

-- A successful `mkFifo` leaves the numbers of the named pipes distinct.
mk_fifo-Distinct :
    (id a : ℕ) (s t : Files) (calls : List Call)
    → Distinct s.fifos
    → mk_fifo id a s ≡ (t, 0, calls)
    → Distinct t.fifos
mk_fifo-Distinct id a s t calls d e =
    let (k, r, w, u, m) = mk_fifo-Success id a s t calls e in
    rw (MadeFifo-fifos m) (update-Distinct s.fifos k (entry id r w) d m.absent)
