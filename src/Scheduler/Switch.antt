-- ===== src/Scheduler/Switch.antt =====
-- `scheduler` where the current process has blocked and another is ready.
use mathlib.Core.Path.{subst}
use tpe2_so.Base.{
  ℕ, ◌^◌, ◌<◌, ◌≡◌, ◌≢◌, refl, List, [], ◌∷◌, arith, update_self, ne→==, ◌∙◌, ap, sym, sub64,
}
use tpe2_so.Scheduler.{Sched, blocked, set_counter, Call}
use tpe2_so.Scheduler.Ring.{IsRing}
use tpe2_so.Scheduler.Lists.{Processes, Processes-same}
use tpe2_so.Scheduler.Ops.{
  remove_blocked, leave_ready, enter_blocked, choose, resume, pick, resumes,
}
use tpe2_so.Scheduler.Quantum.{pick-choose}
use tpe2_so.Scheduler.Block.{remove_blocked-Processes}

remove_blocked-pcb : (s : Sched) (x : ℕ) → (remove_blocked s x).pcb ≡ s.pcb
unfolding remove_blocked leave_ready enter_blocked
remove_blocked-pcb s x = ground arith

remove_blocked-turns :
    (s : Sched) (x y : ℕ) → y ≢ x → (remove_blocked s x).priority_counter y ≡ s.priority_counter y
unfolding remove_blocked leave_ready enter_blocked
remove_blocked-turns s x y h = ground arith

pub resume-counted :
    (t : Sched) (calls : List Call)
    → t.counter ≢ 0
    → resume t calls
      ≡ resumes
          (set_counter t t.current (sub64 (t.priority_counter t.current) 1))
          (t.pcb t.current).rsp
          calls
unfolding resume
resume-counted t calls h = rw (ne→== t.counter 0 h) refl

-- Where the current process has blocked itself and `y` is the next of the ring, `scheduler` resumes
-- `y`, which has used one of its turns; the process goes to the front of the blocked list, and the
-- others keep their order. There are fewer than 2 ^ 64 ready processes.
pub pick-blocks :
    (s : Sched) (x y : ℕ) (ys bs : List ℕ)
    → s.counter < 2 ^ 64
    → Processes s (x ∷ y ∷ ys) bs
    → (s.pcb x).state ≡ blocked
    → (t : Sched) × (pick s ≡ resumes t (s.pcb y).rsp [])
      × (t.priority_counter y ≡ sub64 (s.priority_counter y) 1)
      × Processes t (y ∷ ys) (x ∷ bs)
unfolding choose
pick-blocks s x y ys bs small p asleep =
    let here : s.current ≡ x = p.ready.leads.0 in
    let u : Sched = remove_blocked s x in
    let moved : Processes u (y ∷ ys) (x ∷ bs) = remove_blocked-Processes s x (y ∷ ys) bs small p in
    let next_y : u.current ≡ y = moved.ready.leads.0 in
    let some_left : u.counter ≢ 0 = λ e. omega (arith, moved.ready.count) in
    let chosen : choose s ≡ (u, []) = rw (here, asleep) refl in
    let t : Sched = set_counter u u.current (sub64 (u.priority_counter u.current) 1) in
    let turns : u.priority_counter y ≡ s.priority_counter y =
      remove_blocked-turns s x y p.ready.distinct.0.0 in
    (
      t,
      pick-choose s u [] (y ∷ ys) (subst (λ c. IsRing s (c ∷ y ∷ ys)) (sym here) p.ready) chosen
          ∙ resume-counted u [] some_left
          ∙ ap (λ r. resumes t r []) (rw (remove_blocked-pcb s x, next_y) refl),
      rw next_y (update_self u.priority_counter y (sub64 (u.priority_counter y) 1))
          ∙ ap (λ k. sub64 k 1) turns,
      Processes-same u t (y ∷ ys) (x ∷ bs) refl refl refl refl refl moved,
    )
