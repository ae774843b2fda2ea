-- ===== src/Scheduler/Quantum.antt =====
-- `scheduler`: how long a ready process keeps the CPU, and who comes after it.
use tpe2_so.Base.{
  ℕ, suc, ◌^◌, ◌<◌, ◌≡◌, ◌≢◌, refl, true, List, [], ◌∷◌, ◌++◌, arith, update, update_ne,
  update_self, ne→==, ◌∙◌, length-append, ap, sym, sub64,
}
use tpe2_so.Scheduler.{Sched, null, ready, blocked, set_counter, Call}
use tpe2_so.Scheduler.Ring.{Back, IsRing}
use tpe2_so.Scheduler.Insert.{NotIn-append, Distinct-append, Leads-append}
use tpe2_so.Scheduler.Ops.{
  remove_blocked, leave_ready, enter_blocked, choose, resume, pick, resumes,
}

Back-append :
    (nx pv : ℕ → ℕ) (x : ℕ) (xs : List ℕ)
    → Back nx pv xs
    → pv (nx x) ≡ x
    → Back nx pv (xs ++ (x ∷ []))
Back-append nx pv x [] h e = (e, tt)
Back-append nx pv x (y ∷ xs) (b, h) e = (b, Back-append nx pv x xs h e)

-- The ring read from the next process on: its first process has become its last.
pub rotate-IsRing :
    (s : Sched) (y : ℕ) (ys : List ℕ)
    → IsRing s (s.current ∷ y ∷ ys)
    → IsRing (record s { current = y }) ((y ∷ ys) ++ (s.current ∷ []))
rotate-IsRing s y ys r = record {
  count = omega (arith, r.count, length-append ys (s.current ∷ []));
  some_node = λ e. cc;
  leads = Leads-append s.next y s.current y (y ∷ ys) (refl, r.leads.1.1) (r.leads.1.0);
  back = Back-append s.next s.prev s.current (y ∷ ys) r.back.1 r.back.0;
  distinct = Distinct-append s.current (y ∷ ys) r.distinct.1 r.distinct.0;
  real = NotIn-append null s.current (y ∷ ys) r.real.1 r.real.0;
}

pub pick-choose :
    (s t : Sched) (calls : List Call) (xs : List ℕ)
    → IsRing s (s.current ∷ xs)
    → choose s ≡ (t, calls)
    → pick s ≡ resume t calls
unfolding pick
pick-choose s t calls xs r e =
    rw (ne→== s.counter 0 (omega (arith, r.count))) (ap (λ c. resume c.0 c.1) e)

-- Where processes are left, the chosen one goes on with one turn less.
pub resume-some :
    (t : Sched) (calls : List Call) (k : ℕ)
    → t.counter ≢ 0
    → t.priority_counter t.current ≡ suc k
    → suc k < 2 ^ 64
    → resume t calls ≡ resumes (set_counter t t.current k) (t.pcb t.current).rsp calls
unfolding resume
resume-some t calls k some_left e small =
    let less : sub64 (t.priority_counter t.current) 1 ≡ k = omega arith in
    rw (ne→== t.counter 0 some_left)
      (ap (λ n. resumes (set_counter t t.current n) (t.pcb t.current).rsp calls) less)

-- Where the current process of the ring is ready and has turns left, `scheduler` resumes it with one
-- turn less and changes nothing else.
pub pick-keeps :
    (s : Sched) (k : ℕ) (xs : List ℕ)
    → IsRing s (s.current ∷ xs)
    → (s.pcb s.current).state ≡ ready
    → s.priority_counter s.current ≡ suc k
    → suc k < 2 ^ 64
    → pick s ≡ resumes (set_counter s s.current k) (s.pcb s.current).rsp []
unfolding choose
pick-keeps s k xs r running turns small =
    let chosen : choose s ≡ (s, []) = ground arith in
    pick-choose s s [] xs r chosen ∙ resume-some s [] k (omega (arith, r.count)) turns small

-- Where the current process is ready and has no turn left, and another is behind it that has, the
-- current one goes to the end of the ring with its counter at its priority again, and the next one is
-- resumed and has used one of its turns.
pub pick-rotates :
    (s : Sched) (y k : ℕ) (ys : List ℕ)
    → IsRing s (s.current ∷ y ∷ ys)
    → (s.pcb s.current).state ≡ ready
    → s.priority_counter s.current ≡ 0
    → s.priority_counter y ≡ suc k
    → suc k < 2 ^ 64
    → (t : Sched) × (pick s ≡ resumes t (s.pcb y).rsp [])
      × (t.current ≡ y)
      × IsRing t ((y ∷ ys) ++ (s.current ∷ []))
      × (t.priority_counter y ≡ k)
      × (t.priority_counter s.current ≡ (s.pcb s.current).priority)
unfolding choose
pick-rotates s y k ys r running spent turns small =
    let other : y ≢ s.current = r.distinct.0.0 in
    let refilled = update s.priority_counter s.current (s.pcb s.current).priority in
    let next : Sched = record s { current = y; priority_counter = refilled } in
    let chosen : choose s ≡ (next, []) = ground (arith, r.leads.1.0) in
    let rotated = rotate-IsRing s y ys r in
    let still = update_ne s.priority_counter s.current (s.pcb s.current).priority y other in
    (
      set_counter next y k,
      pick-choose s next [] (y ∷ ys) r chosen
          ∙ resume-some next [] k (omega (arith, r.count)) (still ∙ turns) small,
      refl,
      record {
        count = rotated.count;
        some_node = rotated.some_node;
        leads = rotated.leads;
        back = rotated.back;
        distinct = rotated.distinct;
        real = rotated.real;
      },
      update_self refilled y k,
      update_ne refilled y k s.current (λ e. other (sym e))
          ∙ update_self s.priority_counter s.current (s.pcb s.current).priority,
    )

resume-none :
    (t : Sched) (calls : List Call)
    → t.counter ≡ 0
    → resume t calls
      ≡ resumes
          (record (set_counter t t.current (sub64 (t.priority_counter t.current) 1)) {
            halt = true;
          })
          t.halt_rsp
          calls
unfolding resume
resume-none t calls e = simp e

remove_blocked-only :
    (s : Sched)
    → IsRing s (s.current ∷ [])
    → ((remove_blocked s s.current).current ≡ null)
      × ((remove_blocked s s.current).counter ≡ 0)
      × ((remove_blocked s s.current).halt_rsp ≡ s.halt_rsp)
      × ((remove_blocked s s.current).priority_counter null ≡ s.priority_counter null)
unfolding remove_blocked leave_ready enter_blocked
remove_blocked-only s r = ground (arith, r.count, r.real.0)

-- When the only process of the ring has blocked, `scheduler` halts with no current process, and the
-- word at the counter's place behind address 0 has been decremented.
pub pick-null_write :
    (s : Sched)
    → IsRing s (s.current ∷ [])
    → (s.pcb s.current).state ≡ blocked
    → (t : Sched) × (calls : List Call) × (pick s ≡ resumes t s.halt_rsp calls)
      × (t.current ≡ null)
      × (t.halt ≡ true)
      × (t.priority_counter null ≡ sub64 (s.priority_counter null) 1)
unfolding choose
pick-null_write s r asleep =
    let t0 = remove_blocked s s.current in
    let (at_null, no_more, rsp, word) = remove_blocked-only s r in
    let chosen : choose s ≡ (t0, []) = ground arith in
    (
      record (set_counter t0 t0.current (sub64 (t0.priority_counter t0.current) 1)) { halt = true },
      [],
      pick-choose s t0 [] [] r chosen
          ∙ resume-none t0 [] no_more
          ∙ ap
              (λ h.
                resumes
                  (record (set_counter t0 t0.current (sub64 (t0.priority_counter t0.current) 1)) {
                    halt = true;
                  })
                  h [])
              rsp,
      at_null,
      refl,
      ground (arith, at_null, word),
    )
