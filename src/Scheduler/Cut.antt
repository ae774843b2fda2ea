-- ===== src/Scheduler/Cut.antt =====
-- Taking a process out of the ring: the first part of `removeBlocked`, and `removeTerminated`.
use mathlib.Core.List.{append-nil}
use tpe2_so.Base.{
  ℕ, ◌^◌, ◌<◌, ◌≡◌, ◌≢◌, refl, true, List, [], ◌∷◌, ◌++◌, arith, update, update_ne, All, ap, sym,
  ◌∙◌, sub64, ne→==, ==_refl, lt→ltb, ltb, ◌==◌,
}
use tpe2_so.Scheduler.{Sched, null, unlink}
use tpe2_so.Scheduler.Ring.{NotIn, IsRing}
use tpe2_so.Scheduler.Insert.{last-ne}
use tpe2_so.Scheduler.Lists.{
  IsWaiting, Processes, IsRing-same, rotate_to, cut-IsRing, NotIn_from, All-imp, Waiting-frame,
  Waiting-same, NotIn-around,
}
use tpe2_so.Scheduler.Ops.{leave_ready}

-- The fields after `unlink`, of a node that is not its own neighbour.
abbrev unlinked : Sched → ℕ → Sched
unlinked s x = record s {
  next = update s.next (s.prev x) (s.next x);
  prev = update s.prev (s.next x) (s.prev x);
}

unlink_lem : (s : Sched) (x : ℕ) → s.prev x ≢ x → unlink s x ≡ unlinked s x
unlink_lem s x ne =
    ap
      (λ n. record s {
        next = update s.next (s.prev x) (s.next x);
        prev = update s.prev n (s.prev x);
      })
      (update_ne s.next (s.prev x) (s.next x) x (λ e. ne (sym e)))

-- A ring read from `x`, with more nodes than that.
module _ (s : Sched) (x y : ℕ) (zs bs : List ℕ) (r : IsRing (record s { current = x }) (x ∷ y ∷ zs))
    (w : IsWaiting s bs) (d : All (λ b. NotIn b (x ∷ y ∷ zs)) bs) where
  -- The one before `x` is the last of the others.
  before : (a : ℕ) → NotIn a (y ∷ zs) → s.prev x ≢ a
  before a n = last-ne s.next s.prev a (s.next x) x y zs r.leads.1 r.back.1 n

  apart : s.prev x ≢ x
  apart = before x r.distinct.0

  unlinked-IsWaiting : IsWaiting (unlinked s x) bs
  unlinked-IsWaiting =
      Waiting-frame s (s.prev x) (s.next x) (s.next x) (s.prev x) bs
        (NotIn_from (s.prev x) (x ∷ y ∷ zs) bs (λ b n e. before b n.1 (sym e)) d)
        (NotIn_from (s.next x) (x ∷ y ∷ zs) bs (λ b n e. n.1.0 (sym r.leads.1.0 ∙ sym e)) d) w

  unlinked-IsRing :
      s.counter < 2 ^ 64
      → IsRing (record (unlinked s x) { current = y; counter = sub64 s.counter 1 }) (y ∷ zs)
  unlinked-IsRing small = cut-IsRing (record s { current = x }) x y zs small r

-- The last ready process leaves no current process.
leave_ready-last :
    (s : Sched) (x : ℕ) (bs : List ℕ)
    → Processes s (x ∷ []) bs
    → leave_ready s x ≡ record s { current = null; counter = 0 }
unfolding leave_ready
leave_ready-last s x bs p =
    let here : s.current ≡ x = p.ready.leads.0 in
    let alone : s.counter ≡ 1 = p.ready.count in rw (here, ==_refl (s.pcb x).pid, alone) refl

-- The current process leaves the ring to the next one.
leave_ready-first :
    (s : Sched) (x y : ℕ) (zs bs : List ℕ)
    → s.counter < 2 ^ 64
    → Processes s (x ∷ y ∷ zs) bs
    → leave_ready s x ≡ record (unlinked s x) { current = y; counter = sub64 s.counter 1 }
unfolding leave_ready
leave_ready-first s x y zs bs small p =
    let here : s.current ≡ x = p.ready.leads.0 in
    let r : IsRing (record s { current = x }) (x ∷ y ∷ zs) =
      IsRing-same s (record s { current = x }) (x ∷ y ∷ zs) refl refl (sym here) refl p.ready in
    let ne = apart s x y zs bs r p.waiting p.disjoint in
    let many : ltb 1 s.counter ≡ true = lt→ltb 1 s.counter (omega (arith, p.ready.count)) in
    let next_is : update s.next (s.prev x) (s.next x) x ≡ y =
      update_ne s.next (s.prev x) (s.next x) x (λ e. ne (sym e)) ∙ p.ready.leads.1.0 in
    let same_pid : ((s.pcb x).pid == (s.pcb s.current).pid) ≡ true =
      rw here (==_refl (s.pcb x).pid) in
    rw (same_pid, many)
      (ap (λ (t : Sched). record t { current = t.next s.current; counter = sub64 t.counter 1 })
          (unlink_lem s x ne)
        ∙ ap (λ (c : ℕ). record (unlinked s x) { current = c; counter = sub64 s.counter 1 })
            (ap (update s.next (s.prev x) (s.next x)) here ∙ next_is))

-- Another process leaves the ring around it.
leave_ready-other :
    (s : Sched) (x : ℕ)
    → (s.pcb x).pid ≢ (s.pcb s.current).pid
    → s.prev x ≢ x
    → leave_ready s x ≡ record (unlinked s x) { counter = sub64 s.counter 1 }
unfolding leave_ready
leave_ready-other s x other ne =
    rw (ne→== (s.pcb x).pid (s.pcb s.current).pid other)
      (ap (λ (t : Sched). record t { counter = sub64 t.counter 1 }) (unlink_lem s x ne))

-- A ring without one of its nodes that is not the current one.
cut_other-IsRing :
    (s : Sched) (c : ℕ) (us : List ℕ) (x : ℕ) (vs bs : List ℕ)
    → s.counter < 2 ^ 64
    → IsRing s ((c ∷ us) ++ (x ∷ vs))
    → IsWaiting s bs
    → All (λ b. NotIn b ((c ∷ us) ++ (x ∷ vs))) bs
    → (s.prev x ≢ x)
      × IsRing (record (unlinked s x) { counter = sub64 s.counter 1 }) ((c ∷ us) ++ vs)
      × IsWaiting (unlinked s x) bs
cut_other-IsRing s c us x [] bs small r w d =
    let turned = rotate_to s (c ∷ us) x [] r in
    let d' : All (λ b. NotIn b (x ∷ c ∷ us)) bs =
      All-imp (λ b n. (let a = NotIn-around b (c ∷ us) x [] n in (a.0, a.2))) bs d in
    let ring = unlinked-IsRing s x c us bs turned w d' small in
    let t : Sched = record (unlinked s x) { counter = sub64 s.counter 1 } in
    (
      apart s x c us bs turned w d',
      rw (append-nil us)
          (IsRing-same (record t { current = c }) t (c ∷ us) refl refl r.leads.0 refl ring),
      unlinked-IsWaiting s x c us bs turned w d',
    )
cut_other-IsRing s c us x (v ∷ vs) bs small r w d =
    let turned = rotate_to s (c ∷ us) x (v ∷ vs) r in
    let d' : All (λ b. NotIn b (x ∷ v ∷ (vs ++ (c ∷ us)))) bs =
      All-imp (λ b n. (let a = NotIn-around b (c ∷ us) x (v ∷ vs) n in (a.0, a.2))) bs d in
    let ring = unlinked-IsRing s x v (vs ++ (c ∷ us)) bs turned w d' small in
    let t : Sched = record (unlinked s x) { counter = sub64 s.counter 1 } in
    let back = rotate_to (record t { current = v }) (v ∷ vs) c us ring in
    (
      apart s x v (vs ++ (c ∷ us)) bs turned w d',
      IsRing-same (record t { current = c }) t ((c ∷ us) ++ (v ∷ vs)) refl refl r.leads.0 refl back,
      unlinked-IsWaiting s x v (vs ++ (c ∷ us)) bs turned w d',
    )

-- The ring without the current process.
pub leave_current-Processes :
    (s : Sched) (x : ℕ) (xs bs : List ℕ)
    → s.counter < 2 ^ 64
    → Processes s (x ∷ xs) bs
    → Processes (leave_ready s x) xs bs
leave_current-Processes s x [] bs small p = rw (leave_ready-last s x bs p) (record {
  ready = refl;
  waiting = Waiting-same s (record s { current = null; counter = 0 }) bs refl refl refl p.waiting;
  disjoint = All-imp (λ b n. n.1) bs p.disjoint;
})
leave_current-Processes s x (y ∷ zs) bs small p =
    let r : IsRing (record s { current = x }) (x ∷ y ∷ zs) =
      IsRing-same s (record s { current = x }) (x ∷ y ∷ zs) refl refl (sym p.ready.leads.0) refl
        p.ready in
    let t : Sched = record (unlinked s x) { current = y; counter = sub64 s.counter 1 } in
    rw (leave_ready-first s x y zs bs small p) (record {
      ready = unlinked-IsRing s x y zs bs r p.waiting p.disjoint small;
      waiting =
          Waiting-same (unlinked s x) t bs refl refl refl
            (unlinked-IsWaiting s x y zs bs r p.waiting p.disjoint);
      disjoint = All-imp (λ b n. n.1) bs p.disjoint;
    })

-- The ring without another process.
pub leave_other-Processes :
    (s : Sched) (c : ℕ) (us : List ℕ) (x : ℕ) (vs bs : List ℕ)
    → s.counter < 2 ^ 64
    → (s.pcb x).pid ≢ (s.pcb s.current).pid
    → Processes s ((c ∷ us) ++ (x ∷ vs)) bs
    → Processes (leave_ready s x) ((c ∷ us) ++ vs) bs
leave_other-Processes s c us x vs bs small other p =
    let (ne, ring, waits) = cut_other-IsRing s c us x vs bs small p.ready p.waiting p.disjoint in
    let t : Sched = record (unlinked s x) { counter = sub64 s.counter 1 } in
    rw (leave_ready-other s x other ne) (record {
      ready = ring;
      waiting = Waiting-same (unlinked s x) t bs refl refl refl waits;
      disjoint = All-imp (λ b n. (NotIn-around b (c ∷ us) x vs n).1) bs p.disjoint;
    })
