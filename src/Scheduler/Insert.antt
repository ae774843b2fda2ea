-- ===== src/Scheduler/Insert.antt =====
-- `schedulerAddProcess` puts a process at the end of the ring.
use tpe2_so.Base.{
  ℕ, ◌+◌, ◌≡◌, ◌≢◌, refl, List, [], ◌∷◌, ◌++◌, arith, update, update_ne, update_self, ne→==, ◌∙◌,
  length-append, ap, sym,
}
use tpe2_so.Scheduler.{Sched, Pcb, null, minus_one, add_process}
use tpe2_so.Scheduler.Ring.{Leads, Back, NotIn, Distinct, IsRing, Leads-frame}

-- The node that leads to `q` is the last of the list, so no other.
pub last-ne :
    (nx pv : ℕ → ℕ) (a p q x : ℕ) (xs : List ℕ)
    → Leads nx p (x ∷ xs) q
    → Back nx pv (x ∷ xs)
    → NotIn a (x ∷ xs)
    → pv q ≢ a
last-ne nx pv a p q x [] (e, l) (b, bs) (ne, n) h = ne (sym b ∙ ap pv l ∙ h)
last-ne nx pv a p q x (y ∷ xs) (e, l) (b, bs) (ne, n) h = last-ne nx pv a (nx x) q y xs l bs n h

pub Leads-relink :
    (nx pv : ℕ → ℕ) (v p q x : ℕ) (xs : List ℕ)
    → Leads nx p (x ∷ xs) q
    → Back nx pv (x ∷ xs)
    → Distinct (x ∷ xs)
    → Leads (update nx (pv q) v) p (x ∷ xs) v
Leads-relink nx pv v p q x [] (e, l) (b, bs) d =
    let last : pv q ≡ x = sym (ap pv l) ∙ b in (e, ground arith)
Leads-relink nx pv v p q x (y ∷ xs) (e, l) (b, bs) (n, d) =
    let other : x ≢ pv q = λ h. last-ne nx pv x (nx x) q y xs l bs n (sym h) in
    (e, rw (update_ne nx (pv q) v x other) (Leads-relink nx pv v (nx x) q y xs l bs d))

Back-relink :
    (nx pv : ℕ → ℕ) (a p q x : ℕ) (xs : List ℕ)
    → Leads nx p (x ∷ xs) q
    → Back nx pv (x ∷ xs)
    → Distinct (x ∷ xs)
    → NotIn a (x ∷ xs)
    → NotIn q xs
    → a ≢ q
    → Back
        (update (update nx a q) (pv q) a)
        (update (update pv a (pv q)) q a)
        ((x ∷ xs) ++ (a ∷ []))
Back-relink nx pv a p q x [] (e, l) (b, bs) d (ne, n) m aq =
    let last : pv q ≡ x = sym (ap pv l) ∙ b in (ground arith, (ground arith, tt))
Back-relink nx pv a p q x (y ∷ xs) (e, l) (b, bs) (n', d) (ne, n) (yq, m) aq =
    let other : x ≢ pv q = λ h. last-ne nx pv x (nx x) q y xs l bs n' (sym h) in
    let next_same : update (update nx a q) (pv q) a x ≡ y =
      update_ne (update nx a q) (pv q) a x other ∙ update_ne nx a q x ne ∙ l.0 in
    (
      rw next_same (
          update_ne (update pv a (pv q)) q a y yq
          ∙ update_ne pv a (pv q) y n.0
          ∙ sym (ap pv l.0)
          ∙ b),
      Back-relink nx pv a (nx x) q y xs l bs d n m aq,
    )

pub NotIn-append : (a b : ℕ) (xs : List ℕ) → NotIn a xs → b ≢ a → NotIn a (xs ++ (b ∷ []))
NotIn-append a b [] n h = (h, tt)
NotIn-append a b (x ∷ xs) (ne, n) h = (ne, NotIn-append a b xs n h)

pub Distinct-append : (b : ℕ) (xs : List ℕ) → Distinct xs → NotIn b xs → Distinct (xs ++ (b ∷ []))
Distinct-append b [] d n = (tt, tt)
Distinct-append b (x ∷ xs) (m, d) (ne, n) =
    (NotIn-append x b xs m (λ e. ne (sym e)), Distinct-append b xs d n)

pub Leads-append :
    (nx : ℕ → ℕ) (p a q : ℕ) (xs : List ℕ)
    → Leads nx p xs a
    → nx a ≡ q
    → Leads nx p (xs ++ (a ∷ [])) q
Leads-append nx p a q [] l e = (l, e)
Leads-append nx p a q (x ∷ xs) (h, l) e = (h, Leads-append nx (nx x) a q xs l e)

pub Back-frame :
    (nx pv : ℕ → ℕ) (a v : ℕ) (xs : List ℕ)
    → NotIn a xs
    → Back nx pv xs
    → Back (update nx a v) pv xs
Back-frame nx pv a v [] n h = tt
Back-frame nx pv a v (x ∷ xs) (ne, n) (h, hs) =
    (ap pv (update_ne nx a v x ne) ∙ h, Back-frame nx pv a v xs n hs)

module _ (s : Sched) (node : ℕ) (b : Pcb) (xs : List ℕ) (user : b.pid ≢ 0) (got : node ≢ null)
    (r : IsRing s (s.current ∷ xs)) (fresh : NotIn node (s.current ∷ xs)) where
  -- The state that `schedulerAddProcess` leaves behind.
  unfoldable pub linked : Sched
  linked = record s {
    next = update (update s.next node s.current) (s.prev s.current) node;
    prev = update (update s.prev node (s.prev s.current)) s.current node;
    pcb = update s.pcb node b;
    priority_counter = update s.priority_counter node b.priority;
    counter = s.counter + 1;
  }

  add_process-linked : add_process s node b ≡ (linked, 0)
  unfolding linked add_process
  add_process-linked = simp (
    ne→== b.pid 0 user,
    ne→== node 0 got,
    ne→== s.counter 0 (omega (arith, r.count)),
    update_ne s.prev node (s.prev s.current) s.current fresh.0,
  )

  pub linked-IsRing : IsRing linked ((s.current ∷ xs) ++ (node ∷ []))
  unfolding linked
  linked-IsRing =
      let away : node ≢ s.current = λ e. fresh.0 (sym e) in
      let last_other : node ≢ s.prev s.current = λ e.
        last-ne s.next s.prev node s.current s.current s.current xs r.leads r.back fresh (sym e) in
      let nx = update s.next node s.current in
      let ring : List ℕ = s.current ∷ xs in
      let to_node =
        Leads-relink nx s.prev node s.current s.current s.current xs
          (Leads-frame s.next node s.current s.current s.current ring fresh r.leads)
          (Back-frame s.next s.prev node s.current ring fresh r.back) r.distinct in
      let from_node =
        update_ne nx (s.prev s.current) node node last_other ∙ update_self s.next node s.current in
      record {
        count = omega (arith, r.count, length-append xs (node ∷ []));
        some_node = λ e. cc;
        leads = Leads-append linked.next s.current node s.current ring to_node from_node;
        back =
            Back-relink s.next s.prev node s.current s.current s.current xs r.leads r.back
              r.distinct fresh r.distinct.0 away;
        distinct = Distinct-append node (s.current ∷ xs) r.distinct fresh;
        real = NotIn-append null node (s.current ∷ xs) r.real got;
      }

  -- A process other than 0 for which a node is allocated that is not in the ring is placed behind
  -- every process of the ring, which is not empty; the order and the current process stay, the result
  -- is 0, the node holds the process, and its counter starts at its priority.
  pub add_process-IsRing :
      ((add_process s node b).1 ≡ 0)
      × ((add_process s node b).0.current ≡ s.current)
      × ((add_process s node b).0.pcb node ≡ b)
      × ((add_process s node b).0.priority_counter node ≡ b.priority)
      × IsRing (add_process s node b).0 ((s.current ∷ xs) ++ (node ∷ []))
  unfolding linked
  add_process-IsRing = rw add_process-linked (
    refl,
    refl,
    update_self s.pcb node b,
    update_self s.priority_counter node b.priority,
    linked-IsRing,
  )

-- Where the allocation of the node fails, `schedulerAddProcess` returns -1 and changes nothing.
pub add_process-none : (s : Sched) (b : Pcb) → b.pid ≢ 0 → add_process s 0 b ≡ (s, minus_one)
unfolding add_process
add_process-none s b user = rw (ne→== b.pid 0 user) refl
