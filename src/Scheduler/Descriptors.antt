-- ===== src/Scheduler/Descriptors.antt =====
-- What the calls of `forkfd` and `removeTerminated` do to the table of open files: the references
-- that `fdDup` and `closeFd` count.
use tpe2_so.Base.{
  ℕ, zero, suc, ◌+◌, ◌^◌, ◌≤◌, ◌<◌, ◌≡◌, ◌≢◌, inl, inr, refl, List, [], ◌∷◌, ◌++◌, arith, ◌==◌,
  if◌then◌else◌, ==-cases,
}
use tpe2_so.Fd.{Fd, Table, max_fd}
use tpe2_so.Fd
use tpe2_so.Scheduler.{Call, close_fd, fd_dup, free, int20}
use tpe2_so.Scheduler.Ops.{close_from, dup_from}

-- The table after some calls.
unfoldable pub run_calls : List Call → Table → Table
run_calls [] t = t
run_calls (close_fd d ∷ calls) t = run_calls calls (Fd.close_fd t d).1
run_calls (fd_dup d ∷ calls) t = run_calls calls (Fd.fd_dup t d)
run_calls (free a ∷ calls) t = run_calls calls t
run_calls (int20 ∷ calls) t = run_calls calls t

-- The blocks that are given back to the allocator.
unfoldable pub freed : List Call → List ℕ
freed [] = []
freed (free a ∷ calls) = a ∷ freed calls
freed (close_fd d ∷ calls) = freed calls
freed (fd_dup d ∷ calls) = freed calls
freed (int20 ∷ calls) = freed calls

-- How many of the `n` entries from `i` on stand for the descriptor `d`.
unfoldable pub entries : ℕ → ℕ → (ℕ → ℕ) → ℕ → ℕ
entries zero i fd d = 0
entries (suc n) i fd d = (if fd i == d then 1 else 0) + entries n (i + 1) fd d

close_other : (t : Table) (x d : ℕ) → d ≢ x → (Fd.close_fd t x).1 d ≡ t d
unfolding Fd.close_fd
close_other t x d ne = ground arith

close_same :
    (t : Table) (d : ℕ)
    → d < max_fd
    → (t d).ref ≢ 0
    → (t d).ref < 2 ^ 64
    → ((Fd.close_fd t d).1 d).ref + 1 ≡ (t d).ref
unfolding Fd.close_fd
close_same t d h used small = ground arith

dup_other : (t : Table) (x d : ℕ) → d ≢ x → Fd.fd_dup t x d ≡ t d
unfolding Fd.fd_dup
dup_other t x d ne = ground arith

dup_same :
    (t : Table) (d : ℕ)
    → d < max_fd
    → (t d).ref ≢ 0
    → (t d).ref + 1 < 2 ^ 64
    → (Fd.fd_dup t d d).ref ≡ (t d).ref + 1
unfolding Fd.fd_dup
dup_same t d h used small = ground arith

entries_hit :
    (n i : ℕ) (fd : ℕ → ℕ) (d : ℕ) → d ≡ fd i → entries (suc n) i fd d ≡ 1 + entries n (i + 1) fd d
unfolding entries
entries_hit n i fd d e = ground arith

entries_miss :
    (n i : ℕ) (fd : ℕ → ℕ) (d : ℕ) → d ≢ fd i → entries (suc n) i fd d ≡ entries n (i + 1) fd d
unfolding entries
entries_miss n i fd d ne = ground arith

-- Each entry gives back one reference.
pub close_from-ref :
    (n i : ℕ) (fd : ℕ → ℕ) (d : ℕ) (t : Table) (rest : List Call)
    → d < max_fd
    → (t d).ref < 2 ^ 64
    → entries n i fd d ≤ (t d).ref
    → (u : Table) × (run_calls (close_from n i fd ++ rest) t ≡ run_calls rest u)
      × ((u d).ref + entries n i fd d ≡ (t d).ref)
unfolding close_from run_calls
close_from-ref zero i fd d t rest h small le = (t, refl, unfold entries in omega arith)
close_from-ref (suc n) i fd d t rest h small le = elim (==-cases d (fd i)) [
  | inl e ↦
      let hit = entries_hit n i fd d e in
      let one : ((Fd.close_fd t (fd i)).1 d).ref + 1 ≡ (t d).ref =
        rw (← e) (close_same t d h (λ z. omega (arith, hit)) small) in
      let (u, run, count) =
        close_from-ref n (i + 1) fd d (Fd.close_fd t (fd i)).1 rest h (omega arith)
          (omega (arith, hit)) in
      (u, run, omega (arith, hit))
  | inr ne ↦
      let miss = entries_miss n i fd d ne in
      let same = close_other t (fd i) d ne in
      let (u, run, count) =
        close_from-ref n (i + 1) fd d (Fd.close_fd t (fd i)).1 rest h (rw same small)
          (rw (same, ← miss) le) in
      (u, run, rw (miss) (rw same at count))
]

-- Each entry takes one more reference.
pub dup_from-ref :
    (n i : ℕ) (fd : ℕ → ℕ) (d : ℕ) (t : Table) (rest : List Call)
    → d < max_fd
    → (t d).ref ≢ 0
    → (t d).ref + entries n i fd d < 2 ^ 64
    → (u : Table) × (run_calls (dup_from n i fd ++ rest) t ≡ run_calls rest u)
      × ((u d).ref ≡ (t d).ref + entries n i fd d)
unfolding dup_from run_calls
dup_from-ref zero i fd d t rest h used small = (t, refl, unfold entries in omega arith)
dup_from-ref (suc n) i fd d t rest h used small = elim (==-cases d (fd i)) [
  | inl e ↦
      let hit = entries_hit n i fd d e in
      let one : (Fd.fd_dup t (fd i) d).ref ≡ (t d).ref + 1 =
        rw (← e) (dup_same t d h used (omega (arith, hit))) in
      let (u, run, count) =
        dup_from-ref n (i + 1) fd d (Fd.fd_dup t (fd i)) rest h (λ z. omega arith)
          (omega (arith, hit)) in
      (u, run, omega (arith, hit))
  | inr ne ↦
      let miss = entries_miss n i fd d ne in
      let same = dup_other t (fd i) d ne in
      let (u, run, count) =
        dup_from-ref n (i + 1) fd d (Fd.fd_dup t (fd i)) rest h (rw same used)
          (rw (same, ← miss) small) in
      (u, run, rw miss (rw same at count))
]

pub close_from-freed :
    (n i : ℕ) (fd : ℕ → ℕ) (rest : List Call) → freed (close_from n i fd ++ rest) ≡ freed rest
unfolding close_from freed
close_from-freed zero i fd rest = refl
close_from-freed (suc n) i fd rest = close_from-freed n (i + 1) fd rest

pub dup_from-freed :
    (n i : ℕ) (fd : ℕ → ℕ) (rest : List Call) → freed (dup_from n i fd ++ rest) ≡ freed rest
unfolding dup_from freed
dup_from-freed zero i fd rest = refl
dup_from-freed (suc n) i fd rest = dup_from-freed n (i + 1) fd rest
