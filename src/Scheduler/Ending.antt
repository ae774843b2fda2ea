-- ===== src/Scheduler/Ending.antt =====
-- `scheduler` where the current process has ended and another is ready.
use mathlib.Core.Path.{subst}
use tpe2_so.Base.{
  ℕ, ◌+◌, ◌-◌, ◌^◌, ◌≤◌, ◌<◌, ◌≡◌, ◌≢◌, refl, List, [], ◌∷◌, ◌++◌, arith, update_self, ==_refl, ◌∙◌,
  ap, sym, sub64,
}
use tpe2_so.Fd.{Table}
use tpe2_so.Scheduler.{Sched, terminated, set_counter, Call, free, max_fd}
use tpe2_so.Scheduler.Descriptors.{run_calls, freed, entries, close_from-ref, close_from-freed}
use tpe2_so.Scheduler.Ring.{IsRing}
use tpe2_so.Scheduler.Lists.{Processes, Processes-same}
use tpe2_so.Scheduler.Ops.{remove_terminated, leave_ready, close_from, choose, pick, resumes}
use tpe2_so.Scheduler.Quantum.{pick-choose}
use tpe2_so.Scheduler.Cut.{leave_current-Processes}
use tpe2_so.Scheduler.Switch.{resume-counted}

-- `removeTerminated` takes the current process out of the ring as `removeBlocked` does.
remove_terminated-current :
    (s : Sched) → (remove_terminated s s.current).0 ≡ leave_ready s s.current
unfolding remove_terminated leave_ready
remove_terminated-current s = rw (==_refl (s.pcb s.current).pid) (ground arith)

leave_ready-pcb : (s : Sched) (x : ℕ) → (leave_ready s x).pcb ≡ s.pcb
unfolding leave_ready
leave_ready-pcb s x = ground arith

leave_ready-turns : (s : Sched) (x : ℕ) → (leave_ready s x).priority_counter ≡ s.priority_counter
unfolding leave_ready
leave_ready-turns s x = ground arith

-- What is given back when a process ends: the descriptors from 3 on, its memory and its node.
abbrev given_back : Sched → ℕ → List Call
given_back s x = close_from (max_fd - 3) 3 (s.pcb x).fd ++ (free (s.pcb x).mem_start ∷ free x ∷ [])

remove_terminated-calls :
    (s : Sched)
    → remove_terminated s s.current ≡ ((remove_terminated s s.current).0, given_back s s.current)
unfolding remove_terminated
remove_terminated-calls s = refl

choose-ends :
    (s : Sched)
    → (s.pcb s.current).state ≡ terminated
    → choose s ≡ (leave_ready s s.current, given_back s s.current)
unfolding choose
choose-ends s ended = rw ended (
    remove_terminated-calls s
    ∙ ap (λ (t : Sched). (t, given_back s s.current)) (remove_terminated-current s))

pick-leaves :
    (s : Sched) (x y : ℕ) (ys bs : List ℕ)
    → s.counter < 2 ^ 64
    → Processes s (x ∷ y ∷ ys) bs
    → (s.pcb x).state ≡ terminated
    → (t : Sched) × (pick s ≡ resumes t (s.pcb y).rsp (given_back s x))
      × (t.priority_counter y ≡ sub64 (s.priority_counter y) 1)
      × Processes t (y ∷ ys) bs
pick-leaves s x y ys bs small p ended =
    let here : s.current ≡ x = p.ready.leads.0 in
    let u : Sched = leave_ready s s.current in
    let moved : Processes u (y ∷ ys) bs =
      leave_current-Processes s s.current (y ∷ ys) bs small
        (subst (λ c. Processes s (c ∷ y ∷ ys) bs) (sym here) p) in
    let next_y : u.current ≡ y = moved.ready.leads.0 in
    let some_left : u.counter ≢ 0 = λ e. omega (arith, moved.ready.count) in
    let calls = given_back s s.current in
    let t : Sched = set_counter u u.current (sub64 (u.priority_counter u.current) 1) in
    (
      t,
      pick-choose s u calls (y ∷ ys) (subst (λ c. IsRing s (c ∷ y ∷ ys)) (sym here) p.ready)
            (choose-ends s (ap (λ c. (s.pcb c).state) here ∙ ended))
          ∙ resume-counted u calls some_left
          ∙ ap (λ r. resumes t r calls) (rw (leave_ready-pcb s s.current, next_y) refl)
          ∙ ap (λ c. resumes t (s.pcb y).rsp (given_back s c)) here,
      rw next_y (update_self u.priority_counter y (sub64 (u.priority_counter y) 1))
          ∙ ap (λ (f : ℕ → ℕ). sub64 (f y) 1) (leave_ready-turns s s.current),
      Processes-same u t (y ∷ ys) bs refl refl refl refl refl moved,
    )

-- Where the current process has ended and `y` is the next of the ring, `scheduler` resumes `y`, which
-- has used one of its turns; the process is in neither list any more. The calls that it makes free its
-- memory and its node and nothing else, and run on the table of open files they take away from each
-- descriptor as many references as entries of the process, from 3 on, stand for it. There are fewer
-- than 2 ^ 64 ready processes; the descriptor is below 255 and has as many references at least as the
-- process has entries for it, and fewer than 2 ^ 64.
pub pick-ends :
    (s : Sched) (x y : ℕ) (ys bs : List ℕ) (files : Table) (d : ℕ)
    → s.counter < 2 ^ 64
    → Processes s (x ∷ y ∷ ys) bs
    → (s.pcb x).state ≡ terminated
    → d < max_fd
    → (files d).ref < 2 ^ 64
    → entries 252 3 (s.pcb x).fd d ≤ (files d).ref
    → (t : Sched) × (calls : List Call) × (pick s ≡ resumes t (s.pcb y).rsp calls)
      × (t.priority_counter y ≡ sub64 (s.priority_counter y) 1)
      × Processes t (y ∷ ys) bs
      × (freed calls ≡ (s.pcb x).mem_start ∷ x ∷ [])
      × ((run_calls calls files d).ref + entries 252 3 (s.pcb x).fd d ≡ (files d).ref)
unfolding freed run_calls
pick-ends s x y ys bs files d small p ended h word le =
    let (t, run, turns, left) = pick-leaves s x y ys bs small p ended in
    let frees : List Call = free (s.pcb x).mem_start ∷ free x ∷ [] in
    let (u, after, count) = close_from-ref 252 3 (s.pcb x).fd d files frees h word le in
    (t, given_back s x, run, turns, left, close_from-freed 252 3 (s.pcb x).fd frees, rw after count)
