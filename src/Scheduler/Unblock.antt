-- ===== src/Scheduler/Unblock.antt =====
-- Unblocking a process: from the blocked list to the place behind the current process.
use mathlib.Core.List.{append_assoc}
use tpe2_so.Base.{
  ℕ, ◌+◌, ◌<◌, ◌≡◌, ◌≢◌, refl, some, List, [], ◌∷◌, ◌++◌, arith, length, update, update_ne,
  update_self, All, ap, sym, ◌∙◌, ne→==,
}
use tpe2_so.Scheduler.{Sched, State, Pcb, null, ready, set_state, search_block}
use tpe2_so.Scheduler.Ring.{NotIn, IsRing}
use tpe2_so.Scheduler.Insert.{linked, linked-IsRing}
use tpe2_so.Scheduler.Lists.{
  IsWaiting, Processes, IsRing-same, rotate_to, NotIn_from, NotIn-both, All-imp, Waiting-frame,
  Waiting-same, NotIn-split, Distinct-around, All-around, Processes-same,
}
use tpe2_so.Scheduler.Ops.{leave_blocked, enter_ready, unblock_process}
use tpe2_so.Scheduler.Leave.{search_list-here, leave_blocked-Processes}

-- Behind the current process, or alone.
abbrev pub behind : ℕ → List ℕ → List ℕ
behind x [] = x ∷ []
behind x (c ∷ ys) = c ∷ x ∷ ys

-- What the writes of `enter_ready` come to where a process is ready: `y` is behind the current one.
abbrev entered : Sched → ℕ → ℕ → ℕ → Sched
entered s x c y = record s {
  next = update (update s.next x y) c x;
  prev = update (update s.prev x c) y x;
  counter = s.counter + 1;
}

enter_ready-entered :
    (s : Sched) (x c : ℕ)
    → s.current ≡ c
    → c ≢ x
    → s.counter ≢ 0
    → enter_ready s x ≡ entered s x c (s.next c)
unfolding enter_ready
enter_ready-entered s x c h o k =
    rw (ne→== s.counter 0 k, h, update_ne s.next x (s.next c) c o) refl

entered-Waiting :
    (s : Sched) (x c y : ℕ) (bs : List ℕ)
    → NotIn x bs
    → NotIn c bs
    → NotIn y bs
    → IsWaiting s bs
    → IsWaiting (entered s x c y) bs
entered-Waiting s x c y bs nx nc ny w =
    let t : Sched = record s { next = update s.next x y; prev = update s.prev x c } in
    let u : Sched = record t { next = update t.next c x; prev = update t.prev y x } in
    Waiting-same u (entered s x c y) bs refl refl refl
      (Waiting-frame t c x y x bs nc ny (Waiting-frame s x y x c bs nx nx w))

-- The ring that starts behind the current process gets the node at its end.
entered-linked :
    (s : Sched) (x c y : ℕ) (ys : List ℕ)
    → x ≢ null
    → s.current ≡ c
    → s.prev y ≡ c
    → NotIn x (y ∷ ys)
    → IsRing (record s { current = y }) (y ∷ ys)
    → IsRing (record (entered s x c y) { current = y }) ((y ∷ ys) ++ (x ∷ []))
unfolding linked
entered-linked s x c y ys nz h k n r =
    let b : Pcb = record (s.pcb x) { pid = 1 } in
    let from : Sched = record s { current = y } in
    let user : b.pid ≢ 0 = λ e. omega arith in
    IsRing-same (linked from x b ys user nz r n) (record (entered s x c y) { current = y })
      ((y ∷ ys) ++ (x ∷ [])) (ap (λ z. update (update s.next x y) z x) (sym k))
      (ap (λ z. update (update s.prev x z) y x) (sym k)) refl refl
      (linked-IsRing from x b ys user nz r n)

-- The blocked processes differ from one more ready process too.
apart_with :
    (x c : ℕ) (ys bs : List ℕ)
    → NotIn x bs
    → All (λ b. NotIn b (c ∷ ys)) bs
    → All (λ b. NotIn b (c ∷ x ∷ ys)) bs
apart_with x c ys [] n h = tt
apart_with x c ys (b ∷ bs) (ne, n) (m, h) =
    ((m.0, ((λ e. ne (sym e)), m.1)), apart_with x c ys bs n h)

singles : (x : ℕ) (bs : List ℕ) → NotIn x bs → All (λ b. NotIn b (x ∷ [])) bs
singles x [] n = tt
singles x (b ∷ bs) (ne, n) = (((λ e. ne (sym e)), tt), singles x bs n)

enter_ready-first :
    (s : Sched) (x : ℕ) (bs : List ℕ)
    → x ≢ null
    → NotIn x bs
    → Processes s [] bs
    → Processes (enter_ready s x) (x ∷ []) bs
unfolding enter_ready
enter_ready-first s x bs nz nb p =
    let t : Sched = record s {
      next = update s.next x x;
      prev = update s.prev x x;
      current = x;
      counter = s.counter + 1;
    } in
    let is : enter_ready s x ≡ t = rw p.ready refl in
    rw is (record {
      ready = record {
        count = ap (λ z. z + 1) p.ready;
        some_node = λ e. cc;
        leads = (refl, update_self s.next x x);
        back = (ground arith, tt);
        distinct = (tt, tt);
        real = (nz, tt);
      };
      waiting =
          Waiting-same (record s { next = update s.next x x; prev = update s.prev x x }) t bs refl
            refl refl (Waiting-frame s x x x x bs nb nb p.waiting);
      disjoint = singles x bs nb;
    })

enter_ready-next :
    (s : Sched) (x c : ℕ) (ys bs : List ℕ)
    → x ≢ null
    → NotIn x (c ∷ ys)
    → NotIn x bs
    → Processes s (c ∷ ys) bs
    → Processes (enter_ready s x) (c ∷ x ∷ ys) bs
enter_ready-next s x c [] bs nz nx nb p =
    let r : IsRing s (c ∷ []) = p.ready in
    let here : s.current ≡ c = r.leads.0 in
    let next_c : s.next c ≡ c = r.leads.1 ∙ here in
    let prev_c : s.prev c ≡ c = ap s.prev (sym next_c) ∙ r.back.0 in
    let from = IsRing-same s (record s { current = c }) (c ∷ []) refl refl (sym here) refl r in
    let ring = entered-linked s x c c [] nz here prev_c nx from in
    let out = NotIn_from c (c ∷ []) bs (λ b n e. n.0 (sym e)) p.disjoint in
    rw (enter_ready-entered s x c here nx.0 (λ e. omega (arith, r.count)), next_c)
      (record {
        ready =
            IsRing-same (record (entered s x c c) { current = c }) (entered s x c c) (c ∷ x ∷ [])
              refl refl here refl ring;
        waiting = entered-Waiting s x c c bs nb out out p.waiting;
        disjoint = apart_with x c [] bs nb p.disjoint;
      })
enter_ready-next s x c (y ∷ ys) bs nz nx nb p =
    let r : IsRing s (c ∷ y ∷ ys) = p.ready in
    let here : s.current ≡ c = r.leads.0 in
    let next_c : s.next c ≡ y = r.leads.1.0 in
    let prev_y : s.prev y ≡ c = ap s.prev (sym next_c) ∙ r.back.0 in
    let from = rotate_to s (c ∷ []) y ys r in
    let fresh = NotIn-both x (y ∷ ys) (c ∷ []) nx.1 (nx.0, tt) in
    let ring = entered-linked s x c y (ys ++ (c ∷ [])) nz here prev_y fresh from in
    let turned =
      rotate_to (record (entered s x c y) { current = y }) (y ∷ ys) c (x ∷ [])
        (rw (append_assoc (y ∷ ys) (c ∷ []) (x ∷ [])) at ring) in
    let c_out = NotIn_from c (c ∷ y ∷ ys) bs (λ b n e. n.0 (sym e)) p.disjoint in
    let y_out = NotIn_from y (c ∷ y ∷ ys) bs (λ b n e. n.1.0 (sym e)) p.disjoint in
    rw (enter_ready-entered s x c here nx.0 (λ e. omega (arith, r.count)), next_c)
      (record {
        ready =
            IsRing-same (record (entered s x c y) { current = c }) (entered s x c y)
              (c ∷ x ∷ y ∷ ys) refl refl here refl turned;
        waiting = entered-Waiting s x c y bs nb c_out y_out p.waiting;
        disjoint = apart_with x c (y ∷ ys) bs nb p.disjoint;
      })

enter_ready-Processes :
    (s : Sched) (x : ℕ) (xs bs : List ℕ)
    → x ≢ null
    → NotIn x xs
    → NotIn x bs
    → Processes s xs bs
    → Processes (enter_ready s x) (behind x xs) bs
enter_ready-Processes s x [] bs nz nx nb p = enter_ready-first s x bs nz nb p
enter_ready-Processes s x (c ∷ ys) bs nz nx nb p = enter_ready-next s x c ys bs nz nx nb p

pid-same : (s : Sched) (x : ℕ) (st : State) (u : ℕ) → ((set_state s x st).pcb u).pid ≡ (s.pcb u).pid
pid-same s x st u = ground arith

-- Where the node `x` is the first blocked one with the number, `unblockProcess` returns 0; it takes
-- `x` off the blocked list, whose other processes keep their order, and makes it the next in the ring
-- behind the current process, or the current process where none is ready. The fuel is more than the
-- number of blocked processes before `x`.
pub unblock_process-Processes :
    (fuel : ℕ) (s : Sched) (xs us : List ℕ) (x : ℕ) (cs : List ℕ) (pid : ℕ)
    → length us < fuel
    → Processes s xs (us ++ (x ∷ cs))
    → All (λ u. (s.pcb u).pid ≢ pid) us
    → (s.pcb x).pid ≡ pid
    → (t : Sched) × (unblock_process fuel s pid ≡ some (t, 0))
      × Processes t (behind x xs) (us ++ cs)
unfolding unblock_process search_block
unblock_process-Processes fuel s xs us x cs pid h p o is =
    let t : Sched = set_state s x ready in
    let found = search_list-here fuel s s.first us x cs pid h p.waiting.leads p.waiting.real o is in
    let real = (NotIn-split null us (x ∷ cs) p.waiting.real).1.0 in
    let same = Processes-same s t xs (us ++ (x ∷ cs)) refl refl refl refl refl p in
    let left =
      leave_blocked-Processes t us x xs cs
        (All-imp (λ u o' e. o' (sym (pid-same s x ready u) ∙ e ∙ pid-same s x ready x ∙ is)) us o)
        same in
    (
      enter_ready (leave_blocked t x) x,
      rw (found, ne→== x null real) refl,
      enter_ready-Processes (leave_blocked t x) x xs (us ++ cs) real
          (All-around _ us x cs p.disjoint).0 (Distinct-around us x cs p.waiting.distinct) left,
    )
