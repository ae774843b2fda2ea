-- ===== src/Scheduler/Leave.antt =====
-- Finding a process in the blocked list, and taking it out: `searchBlockNode` and the first part of
-- `unblockProcess`.
use mathlib.Core.List.{append-nil}
use mathlib.Core.Path.{subst}
use tpe2_so.Base.{
  ℕ, zero, suc, ◌<◌, ◌≡◌, ◌≢◌, refl, true, some, List, [], ◌∷◌, ◌++◌, arith, length, update,
  update_ne, update_self, All, ap, sym, ◌∙◌, ne→==, ==_refl, ◌==◌,
}
use tpe2_so.Scheduler.{Sched, null, search_list}
use tpe2_so.Scheduler.Ring.{Leads, NotIn, Distinct, Leads-frame}
use tpe2_so.Scheduler.Lists.{
  Linked, Processes, Linked-frame_first, NotIn-split, NotIn-around, Distinct-around,
  Distinct-without, All-around, Ready-frame, Ready-same,
}
use tpe2_so.Scheduler.Ops.{leave_blocked}

-- `searchBlockNode` finds the first node with the number.
pub search_list-here :
    (fuel : ℕ) (s : Sched) (p : ℕ) (fs : List ℕ) (x : ℕ) (cs : List ℕ) (pid : ℕ)
    → length fs < fuel
    → Leads s.next p (fs ++ (x ∷ cs)) null
    → NotIn null (fs ++ (x ∷ cs))
    → All (λ a. (s.pcb a).pid ≢ pid) fs
    → (s.pcb x).pid ≡ pid
    → search_list fuel s p pid ≡ some x
unfolding search_list
search_list-here zero s p fs x cs pid h l n o is = absurd (omega arith)
search_list-here (suc fuel) s p [] x cs pid h l n o is =
    rw (l.0, ne→== x null n.0, is, ==_refl pid) refl
search_list-here (suc fuel) s p (a ∷ fs) x cs pid h l n o is =
    rw (l.0, ne→== a null n.0, ne→== (s.pcb a).pid pid o.0)
      (search_list-here fuel s (s.next a) fs x cs pid (omega arith) l.1 n.1 o.1 is)

-- The node before `x` in the blocked list is one of those before it.
before-x :
    (pv : ℕ → ℕ) (a : ℕ) (fs : List ℕ) (x : ℕ) (cs : List ℕ) (b : ℕ)
    → Linked pv ((a ∷ fs) ++ (x ∷ cs))
    → NotIn b (a ∷ fs)
    → pv x ≢ b
before-x pv a [] x cs b (e, l) (ne, n) h = ne (sym e ∙ h)
before-x pv a (a' ∷ fs) x cs b (e, l) (ne, n) h = before-x pv a' fs x cs b l n h

Leads-cut :
    (nx pv : ℕ → ℕ) (p a : ℕ) (fs : List ℕ) (x : ℕ) (cs : List ℕ)
    → Leads nx p ((a ∷ fs) ++ (x ∷ cs)) null
    → Linked pv ((a ∷ fs) ++ (x ∷ cs))
    → Distinct ((a ∷ fs) ++ (x ∷ cs))
    → Leads (update nx (pv x) (nx x)) p ((a ∷ fs) ++ cs) null
Leads-cut nx pv p a [] x cs (e, (h, l)) (k, m) (n, d) =
    subst (λ b. Leads (update nx b (nx x)) p (a ∷ cs) null) (sym k)
      (e, rw (update_self nx a (nx x)) (Leads-frame nx a (nx x) (nx x) null cs n.1 l))
Leads-cut nx pv p a (a' ∷ fs) x cs (e, l) (k, m) (n, d) =
    let other : a ≢ pv x =
      λ h. before-x pv a' fs x cs a m (NotIn-split a (a' ∷ fs) (x ∷ cs) n).0 (sym h) in
    (e, rw (update_ne nx (pv x) (nx x) a other) (Leads-cut nx pv (nx a) a' fs x cs l m d))

Linked-cut_last :
    (pv : ℕ → ℕ) (a : ℕ) (fs : List ℕ) (x : ℕ)
    → Linked pv ((a ∷ fs) ++ (x ∷ []))
    → Linked pv (a ∷ fs)
Linked-cut_last pv a [] x l = tt
Linked-cut_last pv a (a' ∷ fs) x (e, l) = (e, Linked-cut_last pv a' fs x l)

Linked-cut :
    (pv : ℕ → ℕ) (a : ℕ) (fs : List ℕ) (x c : ℕ) (cs : List ℕ)
    → Linked pv ((a ∷ fs) ++ (x ∷ c ∷ cs))
    → Distinct ((a ∷ fs) ++ (x ∷ c ∷ cs))
    → Linked (update pv c (pv x)) ((a ∷ fs) ++ (c ∷ cs))
Linked-cut pv a [] x c cs (e, l) (n, d) =
    (update_self pv c (pv x) ∙ e, Linked-frame_first pv (pv x) c cs d.1.0 l.1)
Linked-cut pv a (a' ∷ fs) x c cs (e, l) (n, d) =
    let other : a' ≢ c = λ h. (NotIn-split a' fs (x ∷ c ∷ cs) d.0).1.1.0 (sym h) in
    (update_ne pv c (pv x) a' other ∙ e, Linked-cut pv a' fs x c cs l d)

-- What leads on from a node of the list.
Leads-at :
    (nx : ℕ → ℕ) (p : ℕ) (us : List ℕ) (x : ℕ) (cs : List ℕ)
    → Leads nx p (us ++ (x ∷ cs)) null
    → Leads nx (nx x) cs null
Leads-at nx p [] x cs l = l.1
Leads-at nx p (u ∷ us) x cs l = Leads-at nx (nx u) us x cs l.1

-- A property of all nodes of the list holds for the one before `x`.
before-All {κ} :
    (P : ℕ → Type κ) (pv : ℕ → ℕ) (a : ℕ) (fs : List ℕ) (x : ℕ) (cs : List ℕ)
    → Linked pv ((a ∷ fs) ++ (x ∷ cs))
    → All P ((a ∷ fs) ++ (x ∷ cs))
    → P (pv x)
before-All P pv a [] x cs (e, l) (h, hs) = rw e h
before-All P pv a (a' ∷ fs) x cs (e, l) (h, hs) = before-All P pv a' fs x cs l hs

-- The blocked list without the node `x`, which was the first.
leave_blocked-first :
    (s : Sched) (x : ℕ) (xs cs : List ℕ)
    → Processes s xs (x ∷ cs)
    → Processes (leave_blocked s x) xs cs
unfolding leave_blocked
leave_blocked-first s x xs [] p =
    let same : ((s.pcb x).pid == (s.pcb s.first).pid) ≡ true =
      rw p.waiting.leads.0 (==_refl (s.pcb x).pid) in
    let t : Sched = record s { first = null } in
    let is : leave_blocked s x ≡ t = rw (same, p.waiting.leads.0, p.waiting.leads.1) refl in
    rw is (record {
      ready = Ready-same s t xs refl refl refl refl p.ready;
      waiting = record { leads = refl; linked = tt; distinct = tt; real = tt };
      disjoint = tt;
    })
leave_blocked-first s x xs (c ∷ cs) p =
    let same : ((s.pcb x).pid == (s.pcb s.first).pid) ≡ true =
      rw p.waiting.leads.0 (==_refl (s.pcb x).pid) in
    let t : Sched = record s { first = c; prev = update s.prev c null } in
    let is : leave_blocked s x ≡ t =
      rw (same, p.waiting.leads.0, p.waiting.leads.1.0, ne→== c null p.waiting.real.1.0) refl in
    let frame = Ready-frame s c c c null xs p.disjoint.1.0 p.disjoint.1.0 p.ready in
    rw is (record {
      ready =
          Ready-same (record s { prev = update s.prev c null }) t xs refl refl refl refl frame.1;
      waiting = record {
        leads = (refl, p.waiting.leads.1.1);
        linked = Linked-frame_first s.prev null c cs p.waiting.distinct.1.0 p.waiting.linked.1;
        distinct = p.waiting.distinct.1;
        real = p.waiting.real.1;
      };
      disjoint = p.disjoint.1;
    })

leave_blocked-later :
    (s : Sched) (f : ℕ) (fs : List ℕ) (x : ℕ) (xs cs : List ℕ)
    → (s.pcb x).pid ≢ (s.pcb s.first).pid
    → Processes s xs ((f ∷ fs) ++ (x ∷ cs))
    → Processes (leave_blocked s x) xs ((f ∷ fs) ++ cs)
unfolding leave_blocked
leave_blocked-later s f fs x xs [] other p =
    let w = p.waiting in
    let not_self : x ≢ s.prev x = λ e.
      before-x s.prev f fs x [] x w.linked
        (NotIn-split x (f ∷ fs) [] (Distinct-around (f ∷ fs) x [] w.distinct)).0 (sym e) in
    let keeps : update s.next (s.prev x) (s.next x) x ≡ null =
      update_ne s.next (s.prev x) (s.next x) x not_self
      ∙ Leads-at s.next s.first (f ∷ fs) x [] w.leads in
    let t : Sched = record s { next = update s.next (s.prev x) (s.next x) } in
    let is : leave_blocked s x ≡ t =
      rw (ne→== (s.pcb x).pid (s.pcb s.first).pid other, keeps) refl in
    let out = before-All _ s.prev f fs x [] w.linked p.disjoint in
    rw is (record {
      ready = (Ready-frame s (s.prev x) (s.next x) (s.prev x) null xs out out p.ready).0;
      waiting = record {
        leads = Leads-cut s.next s.prev s.first f fs x [] w.leads w.linked w.distinct;
        linked = rw (append-nil fs) (Linked-cut_last s.prev f fs x w.linked);
        distinct = Distinct-without (f ∷ fs) x [] w.distinct;
        real = (NotIn-around null (f ∷ fs) x [] w.real).1;
      };
      disjoint = (All-around _ (f ∷ fs) x [] p.disjoint).1;
    })
leave_blocked-later s f fs x xs (c ∷ cs) other p =
    let w = p.waiting in
    let not_self : x ≢ s.prev x = λ e.
      before-x s.prev f fs x (c ∷ cs) x w.linked
        (NotIn-split x (f ∷ fs) (c ∷ cs) (Distinct-around (f ∷ fs) x (c ∷ cs) w.distinct)).0
        (sym e) in
    let next_c = (Leads-at s.next s.first (f ∷ fs) x (c ∷ cs) w.leads).0 in
    let keeps : update s.next (s.prev x) (s.next x) x ≡ c =
      update_ne s.next (s.prev x) (s.next x) x not_self ∙ next_c in
    let rest = NotIn-split null (f ∷ fs) (x ∷ c ∷ cs) w.real in
    let t : Sched = record s {
      next = update s.next (s.prev x) (s.next x);
      prev = update s.prev c (s.prev x);
    } in
    let is : leave_blocked s x ≡ t =
      rw (ne→== (s.pcb x).pid (s.pcb s.first).pid other, keeps, ne→== c null rest.1.1.0) refl in
    let out = before-All _ s.prev f fs x (c ∷ cs) w.linked p.disjoint in
    let others = (All-around _ (f ∷ fs) x (c ∷ cs) p.disjoint).1 in
    let c_out = (All-around _ (f ∷ fs) c cs others).0 in
    rw is (record {
      ready = (Ready-frame s (s.prev x) (s.next x) c (s.prev x) xs out c_out p.ready).2;
      waiting = record {
        leads = Leads-cut s.next s.prev s.first f fs x (c ∷ cs) w.leads w.linked w.distinct;
        linked = Linked-cut s.prev f fs x c cs w.linked w.distinct;
        distinct = Distinct-without (f ∷ fs) x (c ∷ cs) w.distinct;
        real = (NotIn-around null (f ∷ fs) x (c ∷ cs) w.real).1;
      };
      disjoint = others;
    })

pub leave_blocked-Processes :
    (s : Sched) (us : List ℕ) (x : ℕ) (xs cs : List ℕ)
    → All (λ u. (s.pcb u).pid ≢ (s.pcb x).pid) us
    → Processes s xs (us ++ (x ∷ cs))
    → Processes (leave_blocked s x) xs (us ++ cs)
leave_blocked-Processes s [] x xs cs o p = leave_blocked-first s x xs cs p
leave_blocked-Processes s (f ∷ fs) x xs cs (o, _) p =
    leave_blocked-later s f fs x xs cs
      (λ e. o (ap (λ a. (s.pcb a).pid) (sym p.waiting.leads.0) ∙ sym e)) p
