-- ===== src/Scheduler/Lists.antt =====
-- The ready processes and the blocked ones together: what the two lists of nodes mean, and how a
-- ring is read from another of its nodes, cut and framed.
use mathlib.Core.List.{append-nil, append_assoc}
use mathlib.Core.Path.{subst}
use tpe2_so.Base.{
  ℕ, ◌^◌, ◌<◌, ◌≡◌, ◌≢◌, refl, List, [], ◌∷◌, ◌++◌, arith, update, update_ne, All, ap, sym, ◌∙◌,
  sub64,
}
use tpe2_so.Scheduler.{Sched, null}
use tpe2_so.Scheduler.Ring.{Leads, Back, NotIn, Distinct, IsRing, Leads-frame}
use tpe2_so.Scheduler.Insert.{last-ne, Leads-relink, Back-frame}
use tpe2_so.Scheduler.Quantum.{rotate-IsRing}

-- The `prev` field of each node but the first leads to the one before it.
abbrev pub Linked : (ℕ → ℕ) → List ℕ → Type 0
Linked pv [] = Unit
Linked pv (x ∷ []) = Unit
Linked pv (x ∷ y ∷ xs) = (pv y ≡ x) × Linked pv (y ∷ xs)

-- The blocked processes are `bs`, from the first to the one whose `next` is NULL.
pub record IsWaiting (s : Sched) (bs : List ℕ) : Type 0 where
  pub leads : Leads s.next s.first bs null
  pub linked : Linked s.prev bs
  pub distinct : Distinct bs
  pub real : NotIn null bs

abbrev pub IsReady : Sched → List ℕ → Type 0
IsReady s [] = s.counter ≡ 0
IsReady s (x ∷ xs) = IsRing s (x ∷ xs)

-- The two lists of the scheduler: no process is in both.
pub record Processes (s : Sched) (xs bs : List ℕ) : Type 0 where
  pub ready : IsReady s xs
  pub waiting : IsWaiting s bs
  pub disjoint : All (λ b. NotIn b xs) bs

-- The ring depends on four fields only.
pub IsRing-same :
    (s t : Sched) (xs : List ℕ)
    → t.next ≡ s.next
    → t.prev ≡ s.prev
    → t.current ≡ s.current
    → t.counter ≡ s.counter
    → IsRing s xs
    → IsRing t xs
IsRing-same s t xs n p c k r = record {
  count = k ∙ r.count;
  some_node = r.some_node;
  leads = rw (n, c) r.leads;
  back = rw (n, p) r.back;
  distinct = r.distinct;
  real = r.real;
}

rotate_one :
    (s : Sched) (u y : ℕ) (ys : List ℕ)
    → IsRing s (u ∷ y ∷ ys)
    → IsRing (record s { current = y }) ((y ∷ ys) ++ (u ∷ []))
rotate_one s u y ys r =
    let here : u ≡ s.current = sym r.leads.0 in rw here (rotate-IsRing s y ys (rw here at r))

-- A ring read from a later node on.
pub rotate_to :
    (s : Sched) (us : List ℕ) (x : ℕ) (vs : List ℕ)
    → IsRing s (us ++ (x ∷ vs))
    → IsRing (record s { current = x }) (x ∷ (vs ++ us))
rotate_to s [] x vs r =
    let here : s.current ≡ x = r.leads.0 in
    rw (append-nil vs)
      (IsRing-same s (record s { current = x }) (x ∷ vs) refl refl (sym here) refl r)
rotate_to s (u ∷ []) x vs r = rotate_one s u x vs r
rotate_to s (u ∷ w ∷ us) x vs r =
    let turned = rotate_one s u w (us ++ (x ∷ vs)) r in
    let split = rw (append_assoc (w ∷ us) (x ∷ vs) (u ∷ [])) at turned in
    rw (← append_assoc vs (u ∷ []) (w ∷ us))
      (rotate_to (record s { current = w }) (w ∷ us) x (vs ++ (u ∷ [])) split)

-- The two fields around the node behind `q` that `node->prev->next = node->next` and its companion
-- write: the list that led to `q` is closed into a ring.
Back-close :
    (nx pv : ℕ → ℕ) (y p q x : ℕ) (xs : List ℕ)
    → Leads nx p (x ∷ xs) q
    → Back nx pv (x ∷ xs)
    → Distinct (x ∷ xs)
    → NotIn y xs
    → Back (update nx (pv q) y) (update pv y (pv q)) (x ∷ xs)
Back-close nx pv y p q x [] (e, l) (b, bs) d n =
    let last : pv q ≡ x = sym (ap pv l) ∙ b in (ground arith, tt)
Back-close nx pv y p q x (z ∷ xs) (e, l) (b, bs) (m, d) (zy, n) =
    let other : x ≢ pv q = λ h. last-ne nx pv x (nx x) q z xs l bs m (sym h) in
    let next_same : update nx (pv q) y x ≡ z = update_ne nx (pv q) y x other ∙ l.0 in
    (
      rw next_same (update_ne pv y (pv q) z zy ∙ sym (ap pv l.0) ∙ b),
      Back-close nx pv y (nx x) q z xs l bs d n,
    )

-- A ring without its first node.
pub cut-IsRing :
    (s : Sched) (x y : ℕ) (zs : List ℕ)
    → s.counter < 2 ^ 64
    → IsRing s (x ∷ y ∷ zs)
    → IsRing
        (record s {
          next = update s.next (s.prev x) (s.next x);
          prev = update s.prev (s.next x) (s.prev x);
          current = y;
          counter = sub64 s.counter 1;
        })
        (y ∷ zs)
cut-IsRing s x y zs small r =
    let l : Leads s.next y (y ∷ zs) x =
      (refl, subst (Leads s.next (s.next y) zs) r.leads.0 r.leads.1.1) in
    rw r.leads.1.0 (record {
      count = omega (arith, r.count);
      some_node = λ e. cc;
      leads = Leads-relink s.next s.prev y y x y zs l r.back.1 r.distinct.1;
      back = Back-close s.next s.prev y y x y zs l r.back.1 r.distinct.1 r.distinct.1.0;
      distinct = r.distinct.1;
      real = r.real.1;
    })

-- Writes to the fields of nodes outside the ring.
Back-frame_prev :
    (nx pv : ℕ → ℕ) (a v p q : ℕ) (xs : List ℕ)
    → NotIn a xs
    → q ≢ a
    → Leads nx p xs q
    → Back nx pv xs
    → Back nx (update pv a v) xs
Back-frame_prev nx pv a v p q [] n m l h = tt
Back-frame_prev nx pv a v p q (x ∷ []) n m l (b, h) =
    (update_ne pv a v (nx x) (λ e. m (sym l.1 ∙ e)) ∙ b, tt)
Back-frame_prev nx pv a v p q (x ∷ y ∷ xs) (ne, n) m (e, l) (b, h) = (
  update_ne pv a v (nx x) (λ e'. n.0 (sym l.0 ∙ e')) ∙ b,
  Back-frame_prev nx pv a v (nx x) q (y ∷ xs) n m l h,
)

pub next-IsRing :
    (s : Sched) (a v : ℕ) (x : ℕ) (xs : List ℕ)
    → NotIn a (x ∷ xs)
    → IsRing s (x ∷ xs)
    → IsRing (record s { next = update s.next a v }) (x ∷ xs)
next-IsRing s a v x xs n r = record {
  count = r.count;
  some_node = r.some_node;
  leads = Leads-frame s.next a v s.current s.current (x ∷ xs) n r.leads;
  back = Back-frame s.next s.prev a v (x ∷ xs) n r.back;
  distinct = r.distinct;
  real = r.real;
}

pub prev-IsRing :
    (s : Sched) (a v : ℕ) (x : ℕ) (xs : List ℕ)
    → NotIn a (x ∷ xs)
    → IsRing s (x ∷ xs)
    → IsRing (record s { prev = update s.prev a v }) (x ∷ xs)
prev-IsRing s a v x xs n r = record {
  count = r.count;
  some_node = r.some_node;
  leads = r.leads;
  back =
      Back-frame_prev s.next s.prev a v s.current s.current (x ∷ xs) n
        (λ e. n.0 (sym r.leads.0 ∙ e)) r.leads r.back;
  distinct = r.distinct;
  real = r.real;
}

-- A write to a `prev` field that the blocked list does not read: of a node outside, or of the first.
pub Linked-frame :
    (pv : ℕ → ℕ) (a v : ℕ) (xs : List ℕ) → NotIn a xs → Linked pv xs → Linked (update pv a v) xs
Linked-frame pv a v [] n l = tt
Linked-frame pv a v (x ∷ []) n l = tt
Linked-frame pv a v (x ∷ y ∷ xs) (nx, (ny, n)) (e, l) =
    (update_ne pv a v y ny ∙ e, Linked-frame pv a v (y ∷ xs) (ny, n) l)

pub Linked-frame_first :
    (pv : ℕ → ℕ) (v x : ℕ) (xs : List ℕ)
    → NotIn x xs
    → Linked pv (x ∷ xs)
    → Linked (update pv x v) (x ∷ xs)
Linked-frame_first pv v x [] n l = tt
Linked-frame_first pv v x (y ∷ xs) (ny, n) (e, l) =
    (update_ne pv x v y ny ∙ e, Linked-frame pv x v (y ∷ xs) (ny, n) l)

-- A node that no blocked process can be is none of them.
pub NotIn_from :
    (a : ℕ) (xs bs : List ℕ)
    → ((b : ℕ) → NotIn b xs → b ≢ a)
    → All (λ b. NotIn b xs) bs
    → NotIn a bs
NotIn_from a xs [] f h = tt
NotIn_from a xs (b ∷ bs) f (n, h) = (f b n, NotIn_from a xs bs f h)

pub All-imp {κ μ} :
    {P : ℕ → Type κ} {Q : ℕ → Type μ} → ((b : ℕ) → P b → Q b) → (bs : List ℕ) → All P bs → All Q bs
All-imp f [] h = tt
All-imp f (b ∷ bs) (p, h) = (f b p, All-imp f bs h)

pub Waiting-frame :
    (s : Sched) (a v c w : ℕ) (bs : List ℕ)
    → NotIn a bs
    → NotIn c bs
    → IsWaiting s bs
    → IsWaiting (record s { next = update s.next a v; prev = update s.prev c w }) bs
Waiting-frame s a v c w bs na nc i = record {
  leads = Leads-frame s.next a v s.first null bs na i.leads;
  linked = Linked-frame s.prev c w bs nc i.linked;
  distinct = i.distinct;
  real = i.real;
}

pub Waiting-same :
    (s t : Sched) (bs : List ℕ)
    → t.next ≡ s.next
    → t.prev ≡ s.prev
    → t.first ≡ s.first
    → IsWaiting s bs
    → IsWaiting t bs
Waiting-same s t bs n p f i = record {
  leads = rw (n, f) i.leads;
  linked = rw p i.linked;
  distinct = i.distinct;
  real = i.real;
}

pub NotIn-both : (a : ℕ) (xs ys : List ℕ) → NotIn a xs → NotIn a ys → NotIn a (xs ++ ys)
NotIn-both a [] ys n m = m
NotIn-both a (x ∷ xs) ys (ne, n) m = (ne, NotIn-both a xs ys n m)

pub NotIn-split : (a : ℕ) (xs ys : List ℕ) → NotIn a (xs ++ ys) → NotIn a xs × NotIn a ys
NotIn-split a [] ys n = (tt, n)
NotIn-split a (x ∷ xs) ys (ne, n) = let rest = NotIn-split a xs ys n in ((ne, rest.0), rest.1)

-- What is in none of two parts around a node is in neither part.
pub NotIn-around :
    (a : ℕ) (us : List ℕ) (x : ℕ) (vs : List ℕ)
    → NotIn a (us ++ (x ∷ vs))
    → (x ≢ a) × NotIn a (us ++ vs) × NotIn a (vs ++ us)
NotIn-around a us x vs n =
    let parts = NotIn-split a us (x ∷ vs) n in
    (parts.1.0, NotIn-both a us vs parts.0 parts.1.1, NotIn-both a vs us parts.1.1 parts.0)

pub Distinct-around :
    (us : List ℕ) (x : ℕ) (vs : List ℕ) → Distinct (us ++ (x ∷ vs)) → NotIn x (us ++ vs)
Distinct-around [] x vs d = d.0
Distinct-around (u ∷ us) x vs (n, d) =
    ((λ e. (NotIn-around u us x vs n).0 (sym e)), Distinct-around us x vs d)

-- The two lists do not depend on what the nodes hold.
pub Processes-same :
    (s t : Sched) (xs bs : List ℕ)
    → t.next ≡ s.next
    → t.prev ≡ s.prev
    → t.current ≡ s.current
    → t.counter ≡ s.counter
    → t.first ≡ s.first
    → Processes s xs bs
    → Processes t xs bs
Processes-same s t [] bs n p c k f q = record {
  ready = k ∙ q.ready;
  waiting = Waiting-same s t bs n p f q.waiting;
  disjoint = q.disjoint;
}
Processes-same s t (x ∷ xs) bs n p c k f q = record {
  ready = IsRing-same s t (x ∷ xs) n p c k q.ready;
  waiting = Waiting-same s t bs n p f q.waiting;
  disjoint = q.disjoint;
}

pub Distinct-without :
    (us : List ℕ) (x : ℕ) (vs : List ℕ) → Distinct (us ++ (x ∷ vs)) → Distinct (us ++ vs)
Distinct-without [] x vs d = d.1
Distinct-without (u ∷ us) x vs (n, d) = ((NotIn-around u us x vs n).1, Distinct-without us x vs d)

pub All-around {κ} :
    (P : ℕ → Type κ) (us : List ℕ) (x : ℕ) (vs : List ℕ)
    → All P (us ++ (x ∷ vs))
    → P x × All P (us ++ vs)
All-around P [] x vs h = h
All-around P (u ∷ us) x vs (p, h) = let rest = All-around P us x vs h in (rest.0, (p, rest.1))

-- Writes to the fields of nodes outside the ring, where there may be none.
pub Ready-frame :
    (s : Sched) (a v c w : ℕ) (xs : List ℕ)
    → NotIn a xs
    → NotIn c xs
    → IsReady s xs
    → IsReady (record s { next = update s.next a v }) xs
      × IsReady (record s { prev = update s.prev c w }) xs
      × IsReady (record s { next = update s.next a v; prev = update s.prev c w }) xs
Ready-frame s a v c w [] na nc r = (r, r, r)
Ready-frame s a v c w (x ∷ xs) na nc r =
    let one = next-IsRing s a v x xs na r in
    (
      one,
      prev-IsRing s c w x xs nc r,
      prev-IsRing (record s { next = update s.next a v }) c w x xs nc one,
    )

pub Ready-same :
    (s t : Sched) (xs : List ℕ)
    → t.next ≡ s.next
    → t.prev ≡ s.prev
    → t.current ≡ s.current
    → t.counter ≡ s.counter
    → IsReady s xs
    → IsReady t xs
Ready-same s t [] n p c k r = k ∙ r
Ready-same s t (x ∷ xs) n p c k r = IsRing-same s t (x ∷ xs) n p c k r
