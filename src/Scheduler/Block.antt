-- ===== src/Scheduler/Block.antt =====
-- Blocking a process: from the ring of the ready ones to the front of the blocked ones.

use tpe2_so.Base.{
  ℕ, ◌^◌, ◌<◌, ◌≡◌, ◌≢◌, refl, inl, inr, List, [], ◌∷◌, ◌++◌, arith, update, update_self, All, sym,
  ◌∙◌, ==-cases, ne→==, ==_refl,
}
use tpe2_so.Scheduler.{Sched, Pcb, null, blocked, search_ready, set_state}
use tpe2_so.Scheduler.Ring.{Leads, NotIn, IsRing, Leads-frame, find_pid, search_ready-find_pid}
use tpe2_so.Scheduler.Lists.{
  IsWaiting, IsReady, Processes, IsRing-same, next-IsRing, prev-IsRing, Linked-frame,
  Linked-frame_first, NotIn_from, NotIn-split, NotIn-around, Distinct-around, Processes-same,
}
use tpe2_so.Scheduler.Ops.{leave_ready, enter_blocked, remove_blocked, block_process}
use tpe2_so.Scheduler.Cut.{leave_current-Processes, leave_other-Processes}

-- The ring when a node outside it is put to the front of the blocked list.
cleared-IsRing :
    (s : Sched) (x y : ℕ) (ys : List ℕ)
    → NotIn x (y ∷ ys)
    → IsRing s (y ∷ ys)
    → IsRing (record s { next = update s.next x null; prev = update s.prev x null }) (y ∷ ys)
cleared-IsRing s x y ys nx r =
    prev-IsRing (record s { next = update s.next x null }) x null y ys nx
      (next-IsRing s x null y ys nx r)

enter_blocked-IsReady :
    (s : Sched) (x : ℕ) (xs : List ℕ)
    → NotIn x xs
    → NotIn s.first xs
    → IsReady s xs
    → IsReady (enter_blocked s x) xs
unfolding enter_blocked
enter_blocked-IsReady s x [] nx nf r = ground (arith, r)
enter_blocked-IsReady s x (y ∷ ys) nx nf r =
    let s1 : Sched = record s { next = update s.next x null; prev = update s.prev x null } in
    let r1 = cleared-IsRing s x y ys nx r in
    let s2 : Sched = record s1 { next = update s1.next x s.first } in
    let r2 = next-IsRing s1 x s.first y ys nx r1 in
    let r3 = prev-IsRing s2 s.first x y ys nf r2 in
    elim (==-cases s.first null) [
      | inl e ↦ rw e (IsRing-same s1 _ (y ∷ ys) refl refl refl refl r1)
      | inr ne ↦ rw (ne→== s.first null ne) (
          IsRing-same (record s2 { prev = update s2.prev s.first x }) _ (y ∷ ys) refl refl refl refl
            r3)
    ]

enter_blocked-IsWaiting :
    (s : Sched) (x : ℕ) (bs : List ℕ)
    → x ≢ null
    → NotIn x bs
    → IsWaiting s bs
    → IsWaiting (enter_blocked s x) (x ∷ bs)
unfolding enter_blocked
enter_blocked-IsWaiting s x [] nz nx w = rw w.leads (record {
  leads = (refl, update_self s.next x null);
  linked = tt;
  distinct = (tt, tt);
  real = (nz, tt);
})
enter_blocked-IsWaiting s x (b ∷ bs) nz nx w =
    let first_is : s.first ≡ b = w.leads.0 in
    let some : s.first ≢ null = λ e. w.real.0 (sym first_is ∙ e) in
    let nx1 = update s.next x null in
    let pv1 = update s.prev x null in
    let framed : Leads (update nx1 x b) b (b ∷ bs) null =
      Leads-frame nx1 x b b null (b ∷ bs) nx
        (Leads-frame s.next x null b null (b ∷ bs) nx (refl, w.leads.1)) in
    rw (ne→== s.first null some, first_is)
      (record {
        leads = (refl, (update_self nx1 x b, framed.1));
        linked = (
          update_self pv1 b x,
          Linked-frame_first pv1 x b bs w.distinct.0
              (Linked-frame s.prev x null (b ∷ bs) nx w.linked),
        );
        distinct = (nx, w.distinct);
        real = (nz, w.real);
      })

-- A node that is in neither list goes to the front of the blocked one.
enter_blocked-Processes :
    (s : Sched) (x : ℕ) (xs bs : List ℕ)
    → x ≢ null
    → NotIn x xs
    → NotIn x bs
    → NotIn null xs
    → Processes s xs bs
    → Processes (enter_blocked s x) xs (x ∷ bs)
enter_blocked-Processes s x xs bs nz nx nb null_out p = record {
  ready = enter_blocked-IsReady s x xs nx (first_out bs p.waiting p.disjoint) p.ready;
  waiting = enter_blocked-IsWaiting s x bs nz nb p.waiting;
  disjoint = (nx, p.disjoint);
}
  where
    first_out : (bs : List ℕ) → IsWaiting s bs → All (λ b. NotIn b xs) bs → NotIn s.first xs
    first_out [] w d = rw w.leads null_out
    first_out (b ∷ bs) w d = rw w.leads.0 d.0

-- Blocking where the current process, which has blocked itself, is taken off by the scheduler: it
-- goes to the front of the blocked list, and the rest of the ring is as it was.
pub remove_blocked-Processes :
    (s : Sched) (x : ℕ) (xs bs : List ℕ)
    → s.counter < 2 ^ 64
    → Processes s (x ∷ xs) bs
    → Processes (remove_blocked s x) xs (x ∷ bs)
unfolding remove_blocked
remove_blocked-Processes s x xs bs small p =
    enter_blocked-Processes (leave_ready s x) x xs bs p.ready.real.0 p.ready.distinct.0
      (NotIn_from x (x ∷ xs) bs (λ b n e. n.0 (sym e)) p.disjoint) p.ready.real.1
      (leave_current-Processes s x xs bs small p)

-- The first process with a number, behind those with another.
pub find_pid-here :
    (pcb : ℕ → Pcb) (us : List ℕ) (x : ℕ) (vs : List ℕ) (pid : ℕ)
    → All (λ u. (pcb u).pid ≢ pid) us
    → (pcb x).pid ≡ pid
    → find_pid pcb (us ++ (x ∷ vs)) pid ≡ x
unfolding find_pid
find_pid-here pcb [] x vs pid a e = rw (e, ==_refl pid) refl
find_pid-here pcb (u ∷ us) x vs pid (ne, a) e =
    rw (ne→== (pcb u).pid pid ne) (find_pid-here pcb us x vs pid a e)

remove_other-Processes :
    (s : Sched) (c : ℕ) (us : List ℕ) (x : ℕ) (vs bs : List ℕ)
    → s.counter < 2 ^ 64
    → (s.pcb x).pid ≢ (s.pcb s.current).pid
    → Processes s ((c ∷ us) ++ (x ∷ vs)) bs
    → Processes (remove_blocked s x) ((c ∷ us) ++ vs) (x ∷ bs)
unfolding remove_blocked
remove_other-Processes s c us x vs bs small other p =
    let in_ring = Distinct-around (c ∷ us) x vs p.ready.distinct in
    let null_out = NotIn-around null (c ∷ us) x vs p.ready.real in
    enter_blocked-Processes (leave_ready s x) x ((c ∷ us) ++ vs) bs null_out.0 in_ring
      (NotIn_from x ((c ∷ us) ++ (x ∷ vs)) bs (λ b n e. (NotIn-around b (c ∷ us) x vs n).0 (sym e))
        p.disjoint)
      null_out.1 (leave_other-Processes s c us x vs bs small other p)

-- Where the current process `c` has another number, and `x` is the first of the ring with this one:
-- `blockProcess` returns 0 without a switch, and takes `x` out of the ring to the front of the
-- blocked list; the others keep their order. There are fewer than 2 ^ 64 ready processes.
pub block_process-Processes :
    (s : Sched) (c : ℕ) (us : List ℕ) (x : ℕ) (vs bs : List ℕ) (pid : ℕ)
    → s.counter < 2 ^ 64
    → Processes s ((c ∷ us) ++ (x ∷ vs)) bs
    → All (λ u. (s.pcb u).pid ≢ pid) (c ∷ us)
    → (s.pcb x).pid ≡ pid
    → ((block_process s pid).1 ≡ 0)
      × ((block_process s pid).2 ≡ [])
      × Processes (block_process s pid).0 ((c ∷ us) ++ vs) (x ∷ bs)
unfolding block_process
block_process-Processes s c us x vs bs pid small p others is =
    let found : search_ready s pid ≡ x =
      search_ready-find_pid s ((c ∷ us) ++ (x ∷ vs)) pid p.ready
      ∙ find_pid-here s.pcb (c ∷ us) x vs pid others is in
    let not_current : (s.pcb s.current).pid ≢ pid = rw p.ready.leads.0 others.0 in
    let real : x ≢ null = (NotIn-split null (c ∷ us) (x ∷ vs) p.ready.real).1.0 in
    let t : Sched = set_state s x blocked in
    let pid_x : (t.pcb x).pid ≡ pid = ground (arith, is) in
    let pid_c : (t.pcb t.current).pid ≢ pid = ground (arith, is, not_current) in
    let apart : (t.pcb x).pid ≢ (t.pcb t.current).pid = λ e. pid_c (sym e ∙ pid_x) in
    rw (ne→== (s.pcb s.current).pid pid not_current, found, ne→== x null real)
      (
        refl,
        refl,
        remove_other-Processes t c us x vs bs small apart
            (Processes-same s t ((c ∷ us) ++ (x ∷ vs)) bs refl refl refl refl refl p),
      )
