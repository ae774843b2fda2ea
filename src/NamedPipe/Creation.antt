-- ===== src/NamedPipe/Creation.antt =====
-- What `openPipe` leaves behind, when it works and when the descriptors run out.
use tpe2_so.Base.{
  ℕ, ◌≤◌, ◌<◌, ◌≡◌, ◌≢◌, refl, inl, inr, ap, sym, ◌∙◌, Bool, true, false, List, [], ◌∷◌, arith,
  ◌==◌, if◌then◌else◌, update, update_self, update_ne, ==-cases, ne→==,
}
use tpe2_so.Pipe.{Pipe, FdType, read, write}
use tpe2_so.Pipe.Fifo.{contents, window}
use tpe2_so.Fd.{Fd, Table, max_fd, minus_one, null, init_fd}
use tpe2_so.Fd.Laws.{Opened, lowest, exhausted, init_fd-Opened}
use tpe2_so.NamedPipe.{Files, Call, free, Opening, failed, opened, negative, new_pipe, open_pipe}

-- A new reference to one end of a pipe.
abbrev pub one_ref : FdType → ℕ → Fd
one_ref type pipe = record { ref = 1; type = type; pipe = pipe }

-- `n` references.
abbrev pub refs : ℕ → FdType → ℕ → Fd
refs n type pipe = record { ref = n; type = type; pipe = pipe }

record GaveFd (t : Table) (type : FdType) (pipe : ℕ) (r : ℕ × Table) : Type 0 where
  low : 3 ≤ r.0
  high : r.0 < max_fd
  was_free : (t r.0).ref ≡ 0
  table : r.1 ≡ update t r.0 (one_ref type pipe)

Opened-GaveFd :
    (t : Table) (type : FdType) (pipe : ℕ) (r : ℕ × Table)
    → Opened t type pipe 3 max_fd r
    → negative r.0 ≡ false
    → GaveFd t type pipe r
Opened-GaveFd t type pipe r (lowest k l h z m) e = record {
  low = l;
  high = h;
  was_free = z;
  table = refl;
}
Opened-GaveFd t type pipe r (exhausted m) e = cc

-- `initFd` where a single descriptor is free, and where none is.
only_free :
    (t : Table) (type : FdType) (a k : ℕ)
    → 3 ≤ k
    → k < max_fd
    → (t k).ref ≡ 0
    → ((m : ℕ) → 3 ≤ m → m < max_fd → m ≢ k → (t m).ref ≢ 0)
    → init_fd t type a ≡ (k, update t k (one_ref type a))
only_free t type a k low high is_free used = go (init_fd-Opened t type a)
  where
    go : {r : ℕ × Table} → Opened t type a 3 max_fd r → r ≡ (k, update t k (one_ref type a))
    go (lowest j l h z m) = elim (==-cases j k) [
      | inl e ↦ ap (λ i. (i, update t i (one_ref type a))) e
      | inr ne ↦ absurd (used j l h ne z)
    ]
    go (exhausted m) = absurd (m k low high is_free)

none_free :
    (t : Table) (type : FdType) (a : ℕ)
    → ((m : ℕ) → 3 ≤ m → m < max_fd → (t m).ref ≢ 0)
    → init_fd t type a ≡ (minus_one, t)
none_free t type a used = go (init_fd-Opened t type a)
  where
    go : {r : ℕ × Table} → Opened t type a 3 max_fd r → r ≡ (minus_one, t)
    go (lowest j l h z m) = absurd (used j l h z)
    go (exhausted m) = refl

-- A pipe `a` with its two descriptors.
pub record OpenedPipe (s t : Files) (a r w : ℕ) : Type 0 where
  pub given : a ≢ null
  pub read_in : r < max_fd
  pub write_in : w < max_fd
  pub apart : r ≢ w
  pub read_free : (s.fds r).ref ≡ 0
  pub write_free : (s.fds w).ref ≡ 0
  pub read_end : t.fds r ≡ one_ref read a
  pub write_end : t.fds w ≡ one_ref write a
  pub others : (x : ℕ) → x ≢ r → x ≢ w → t.fds x ≡ s.fds x
  pub read_open : (t.pipes a).read_open ≡ true
  pub write_open : (t.pipes a).write_open ≡ true
  pub empty : contents (t.pipes a) ≡ []
  pub same_fifos : t.fifos ≡ s.fifos

-- The parts of a successful call.
record Parts (s t : Files) (a r w : ℕ) : Type 0 where
  given : a ≢ null
  read_ok : negative (init_fd s.fds read a).0 ≡ false
  write_ok : negative (init_fd (init_fd s.fds read a).1 write a).0 ≡ false
  read_is : r ≡ (init_fd s.fds read a).0
  write_is : w ≡ (init_fd (init_fd s.fds read a).1 write a).0
  fds : t.fds ≡ (init_fd (init_fd s.fds read a).1 write a).1
  pipe : t.pipes a ≡ new_pipe (s.pipes a) s.sem_counter r w
  fifos : t.fifos ≡ s.fifos

-- A guard that fails was not met on the way to a success.
if-failed :
    (b : Bool) (x : Files) (calls : List Call) (rest : Opening) {t : Files} {r w : ℕ}
    {out : List Call}
    → (if b then failed x calls else rest) ≡ opened t r w out
    → (b ≡ false) × (rest ≡ opened t r w out)
if-failed true x calls rest h = cc
if-failed false x calls rest h = (refl, h)

open_pipe-Parts :
    (a : ℕ) (s t : Files) (r w : ℕ) (calls : List Call)
    → open_pipe a s ≡ opened t r w calls
    → Parts s t a r w
unfolding open_pipe
open_pipe-Parts a s t r w calls h =
    let one = if-failed (a == null) _ _ _ h in
    let two = if-failed (negative (init_fd s.fds read a).0) _ _ _ one.1 in
    let three = if-failed (negative (init_fd (init_fd s.fds read a).1 write a).0) _ _ _ two.1 in
    let last = three.1 in
    record {
      given = ground (arith, one.0);
      read_ok = two.0;
      write_ok = three.0;
      read_is = cc;
      write_is = cc;
      fds = cc;
      pipe = ground (arith, last);
      fifos = cc;
    }

-- Where `openPipe` works it takes two different descriptors that had no reference and makes them, with
-- one reference each, the two ends of the pipe, which lies in the block from `alloc`, holds nothing and
-- is open at both ends; all other descriptors and the named pipes are as before.
pub open_pipe-OpenedPipe :
    (a : ℕ) (s t : Files) (r w : ℕ) (calls : List Call)
    → open_pipe a s ≡ opened t r w calls
    → OpenedPipe s t a r w
unfolding contents window new_pipe
open_pipe-OpenedPipe a s t r w calls h =
    let p = open_pipe-Parts a s t r w calls h in
    let g1 =
      Opened-GaveFd s.fds read a (init_fd s.fds read a) (init_fd-Opened s.fds read a) p.read_ok in
    let t1 : Table = (init_fd s.fds read a).1 in
    let g2 = Opened-GaveFd t1 write a (init_fd t1 write a) (init_fd-Opened t1 write a) p.write_ok in
    let e1 : t1 ≡ update s.fds r (one_ref read a) =
      g1.table ∙ ap (λ k. update s.fds k (one_ref read a)) (sym p.read_is) in
    let e2 : t.fds ≡ update t1 w (one_ref write a) =
      p.fds ∙ g2.table ∙ ap (λ k. update t1 k (one_ref write a)) (sym p.write_is) in
    let middle : Table = update s.fds r (one_ref read a) in
    let both : (x : ℕ) → t.fds x ≡ update (update s.fds r (one_ref read a)) w (one_ref write a) x =
      λ x. ap (λ (f : Table). f x) (e2 ∙ ap (λ (u : Table). update u w (one_ref write a)) e1) in
    let free_r : (s.fds r).ref ≡ 0 = rw p.read_is g1.was_free in
    let free_w1 : (t1 w).ref ≡ 0 = rw p.write_is g2.was_free in
    let free_w : (update s.fds r (one_ref read a) w).ref ≡ 0 =
      ap (λ (f : Table). (f w).ref) (sym e1) ∙ free_w1 in
    let apart : r ≢ w = ground (arith, free_w) in
    record {
      given = p.given;
      read_in = omega (arith, g1.high, p.read_is);
      write_in = omega (arith, g2.high, p.write_is);
      apart = apart;
      read_free = free_r;
      write_free = ground (arith, free_w, apart);
      read_end =
          both r
          ∙ update_ne middle w (one_ref write a) r apart
          ∙ update_self s.fds r (one_ref read a);
      write_end = both w ∙ update_self middle w (one_ref write a);
      others = λ x nr nw.
          both x
          ∙ update_ne middle w (one_ref write a) x nw
          ∙ update_ne s.fds r (one_ref read a) x nr;
      read_open = ap (λ (q : Pipe). q.read_open) p.pipe;
      write_open = ap (λ (q : Pipe). q.write_open) p.pipe;
      empty = ap contents p.pipe;
      same_fifos = p.fifos;
    }

-- Where exactly one descriptor is free, `openPipe` fails and frees the pipe's block, but that
-- descriptor is left in use, as a read end of the block that was freed.
pub open_pipe-leaks :
    (a k : ℕ) (s : Files)
    → a ≢ null
    → 3 ≤ k
    → k < max_fd
    → (s.fds k).ref ≡ 0
    → ((m : ℕ) → 3 ≤ m → m < max_fd → m ≢ k → (s.fds m).ref ≢ 0)
    → open_pipe a s ≡ failed (record s { fds = update s.fds k (one_ref read a) }) (free a ∷ [])
unfolding open_pipe
open_pipe-leaks a k s given low high is_free used =
    let first = only_free s.fds read a k low high is_free used in
    let second = none_free (update s.fds k (one_ref read a)) write a (λ m l h. elim (==-cases m k) [
      | inl e ↦ rw (e, update_self s.fds k (one_ref read a)) (omega arith)
      | inr ne ↦ rw (update_ne s.fds k (one_ref read a) m ne) (used m l h ne)
    ]) in
    rw (ne→== a null given, first, second) (ground arith)
