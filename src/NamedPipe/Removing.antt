-- ===== src/NamedPipe/Removing.antt =====
-- Removing a named pipe.
use tpe2_so.Base.{
  ℕ, ◌<◌, ◌≡◌, ◌≢◌, inl, inr, ap, sym, ◌∙◌, List, arith, ◌==◌, if◌then◌else◌, update, ==-cases,
  ne→==, Option-cases,
}
use tpe2_so.Pipe.{FdType}
use tpe2_so.Fd.{minus_one}
use tpe2_so.NamedPipe.{
  Fifo, Files, Call, max_fifo, find_fifo, open_fifo, clear_fifo, rm_fifo, close_file,
}
use tpe2_so.NamedPipe.Names.{Distinct, find_fifo-none, find_fifo_sound, failed-ne-done}

close_file-fifos : (s : Files) (fd : ℕ) → (close_file s fd).0.fifos ≡ s.fifos
unfolding close_file
close_file-fifos s fd = ground arith

abbrev cleared : Fifo
cleared = record { id = 0; read_fd = 0; write_fd = 0 }

clear_fifo-fifos :
    (i : ℕ) (s : Files) (m : ℕ)
    → (clear_fifo i s).0.fifos m ≡ (if m == i then cleared else s.fifos m)
unfolding clear_fifo
clear_fifo-fifos i s m =
    let s1 : Files = record s { fifos = update s.fifos i (record (s.fifos i) { id = 0 }) } in
    let r : Files = (close_file s1 (s.fifos i).read_fd).0 in
    let same : (close_file r (s.fifos i).write_fd).0.fifos ≡ s1.fifos =
      close_file-fifos r (s.fifos i).write_fd ∙ close_file-fifos s1 (s.fifos i).read_fd in
    ap (λ (f : ℕ → Fifo). update f i cleared m) same ∙ ground arith

-- What is left when an entry is cleared.
record Removed (id : ℕ) (s t : Files) : Type 0 where
  absent : (m : ℕ) → m < max_fifo → (t.fifos m).id ≢ id
  others : (m : ℕ) → m < max_fifo → (s.fifos m).id ≢ id → t.fifos m ≡ s.fifos m
  distinct : Distinct t.fifos

clear_fifo-Removed :
    (id i : ℕ) (s : Files)
    → id ≢ 0
    → i < max_fifo
    → (s.fifos i).id ≡ id
    → Distinct s.fifos
    → Removed id s (clear_fifo i s).0
clear_fifo-Removed id i s nz h is d =
    let at = clear_fifo-fifos i s in
    record {
      absent = λ m hm e. ground (arith, at m, d.apart m i hm h);
      others = λ m hm ne. ground (arith, at m);
      distinct = record { apart = λ a b ha hb na e. ground (arith, at a, at b, d.apart a b ha hb) };
    }

open_fifo-absent :
    (id : ℕ) (type : FdType) (s : Files)
    → ((m : ℕ) → m < max_fifo → (s.fifos m).id ≢ id)
    → open_fifo id type s ≡ (s, minus_one)
unfolding open_fifo
open_fifo-absent id type s absent =
    rw (find_fifo-none max_fifo 0 max_fifo s.fifos id (omega arith) absent) (ground arith)

rm_fifo-Removed :
    (id : ℕ) (s t : Files) (calls : List Call)
    → Distinct s.fifos
    → rm_fifo id s ≡ (t, 0, calls)
    → Removed id s t
unfolding rm_fifo
rm_fifo-Removed id s t calls d e = elim (==-cases id 0) [
  | inl z ↦ absurd (failed-ne-done (rw z at e))
  | inr nz ↦ elim (Option-cases (find_fifo max_fifo 0 s.fifos id)) [
    | inl q ↦ absurd (
        let e' = rw (ne→== id 0 nz, q) at e in
        omega (arith, ap (λ (x : Files × ℕ × List Call). x.1) e'))
    | inr (i, q) ↦
        let e' = rw (ne→== id 0 nz, q) at e in
        let there = find_fifo_sound max_fifo 0 max_fifo i s.fifos id (omega arith) q in
        let same : t ≡ (clear_fifo i s).0 = sym (ap (λ (x : Files × ℕ × List Call). x.0) e') in
        rw same (clear_fifo-Removed id i s nz there.0 there.1 d)
  ]
]

-- Where the numbers are distinct and `rmFifo` returns 0: the number no longer opens anything, the
-- entries of the other numbers are as they were, and the numbers are distinct.
pub rm_fifo-open_fifo :
    (id : ℕ) (s t : Files) (calls : List Call)
    → Distinct s.fifos
    → rm_fifo id s ≡ (t, 0, calls)
    → ((type : FdType) → open_fifo id type t ≡ (t, minus_one))
      × ((m : ℕ) → m < max_fifo → (s.fifos m).id ≢ id → t.fifos m ≡ s.fifos m)
      × Distinct t.fifos
rm_fifo-open_fifo id s t calls d e =
    let r = rm_fifo-Removed id s t calls d e in
    (λ type. open_fifo-absent id type t r.absent, r.others, r.distinct)
