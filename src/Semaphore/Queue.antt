-- ===== src/Semaphore/Queue.antt =====
-- The queues of a semaphore, and the list of semaphores.
use tpe2_so.Base.{
  ℕ, ◌^◌, ◌<◌, ◌≡◌, ◌≢◌, inl, inr, refl, Bool, true, false, none, some, List, [], ◌∷◌, ◌++◌, arith,
  ==_refl, ne→==, ==-cases, Option-cases, sym,
}
use tpe2_so.Semaphore.{
  Sem, sleeps, wait_sem, post_sem, block, unblock, acquire, add_to_queue, wakeup, search, put,
  remove, sem_open, delete_semaphore,
}

-- No two semaphores of the list have one number.
abbrev pub Absent : ℕ → List Sem → Type 0
Absent id [] = Unit
Absent id (s ∷ sems) = (s.id ≢ id) × Absent id sems

abbrev pub Distinct : List Sem → Type 0
Distinct [] = Unit
Distinct (s ∷ sems) = Absent s.id sems × Distinct sems

search-none : (sems : List Sem) (id : ℕ) → search sems id ≡ none → Absent id sems
unfolding search
search-none [] id h = tt
search-none (s ∷ sems) id h = ground (arith, search-none sems id)

search-id : (sems : List Sem) (id : ℕ) (s : Sem) → search sems id ≡ some s → s.id ≡ id
unfolding search
search-id [] id s h = cc
search-id (t ∷ sems) id s h = ground (arith, search-id sems id s)

Absent-put : (sems : List Sem) (s : Sem) (id : ℕ) → Absent id sems → Absent id (put sems s)
unfolding put
Absent-put [] s id h = tt
Absent-put (t ∷ sems) s id (ne, h) = ground (arith, Absent-put sems s id h)

Distinct-put : (sems : List Sem) (s : Sem) → Distinct sems → Distinct (put sems s)
unfolding put
Distinct-put [] s h = tt
Distinct-put (t ∷ sems) s (a, d) = elim (==-cases t.id s.id) [
  | inl e ↦ rw (e, ==_refl) (rw e at a, d)
  | inr ne ↦ rw (ne→== t.id s.id ne) (Absent-put sems s t.id a, Distinct-put sems s d)
]

Absent-remove : (sems : List Sem) (i id : ℕ) → Absent id sems → Absent id (remove sems i)
unfolding remove
Absent-remove [] i id h = tt
Absent-remove (t ∷ sems) i id (ne, h) = ground (arith, Absent-remove sems i id h)

Distinct-remove : (sems : List Sem) (i : ℕ) → Distinct sems → Distinct (remove sems i)
unfolding remove
Distinct-remove [] i h = tt
Distinct-remove (t ∷ sems) i (a, d) =
    ground (arith, Absent-remove sems i t.id a, Distinct-remove sems i d)

Absent-of_remove : (sems : List Sem) (i : ℕ) → Distinct sems → Absent i (remove sems i)
unfolding remove
Absent-of_remove [] i h = tt
Absent-of_remove (t ∷ sems) i (a, d) = elim (==-cases t.id i) [
  | inl e ↦ rw (e, ==_refl) (rw e at a)
  | inr ne ↦ rw (ne→== t.id i ne) (ne, Absent-of_remove sems i d)
]

Distinct-append :
    (sems : List Sem) (s : Sem) → Distinct sems → Absent s.id sems → Distinct (sems ++ (s ∷ []))
Distinct-append [] s d a = (tt, tt)
Distinct-append (t ∷ sems) s (ab, d) (ne, a) = (Absent-append sems ab, Distinct-append sems s d a)
  where
    Absent-append : (l : List Sem) → Absent t.id l → Absent t.id (l ++ (s ∷ []))
    Absent-append [] h = (λ e. ne (sym e), tt)
    Absent-append (u ∷ l) (m, h) = (m, Absent-append l h)

-- Where the semaphores have distinct numbers, `semOpen` keeps them distinct, whichever semaphore it
-- opens and whether or not the allocations succeed.
sem_open-Distinct :
    (got_sem got_node : Bool) (sems : List Sem) (pid id value : ℕ)
    → Distinct sems
    → Distinct (sem_open got_sem got_node sems pid id value).0
unfolding sem_open
sem_open-Distinct true got_node sems pid id value d = elim (Option-cases (search sems id)) [
  | inr (s, e) ↦ rw (e, sem_open) (Distinct-put sems _ d)
  | inl e ↦ rw (e, sem_open) (Distinct-append sems _ d (search-none sems id e))
]
sem_open-Distinct false got_node sems pid id value d = elim (Option-cases (search sems id)) [
  | inr (s, e) ↦ rw (e, sem_open) (Distinct-put sems _ d)
  | inl e ↦ rw (e, sem_open) d
]

-- Where the semaphores have distinct numbers, after `deleteSemaphore` none has the number, whether or
-- not one had it before, and the numbers are distinct still.
delete_semaphore-Absent :
    (sems : List Sem) (id : ℕ)
    → Distinct sems
    → Absent id (delete_semaphore sems id).0 × Distinct (delete_semaphore sems id).0
unfolding delete_semaphore
delete_semaphore-Absent sems id d = elim (Option-cases (search sems id)) [
  | inl e ↦ rw (e, delete_semaphore) (search-none sems id e, d)
  | inr (s, e) ↦
      rw (e, delete_semaphore)
        (rw (search-id sems id s e) (Absent-of_remove sems id d, Distinct-remove sems id d))
]

-- Processes are woken in the order in which they went to sleep: with value 0, the lock free and
-- processes asleep, a wait puts its process behind them, and the post that comes next wakes the first
-- of them and makes the value 1. (The pid of the first is no negative `int`, and the wait's node is
-- allocated.)
pub post_sem-wait_sem :
    (s : Sem) (pid p : ℕ) (q : List ℕ)
    → s.value ≡ 0
    → s.lock ≡ false
    → s.blocked ≡ p ∷ q
    → p < 2 ^ 31
    → (t u : Sem) × (wait_sem true pid s ≡ sleeps t (block pid ∷ []))
      × (post_sem t ≡ some (u, unblock p ∷ []))
      × (u.blocked ≡ q ++ (pid ∷ []))
      × (u.value ≡ 1)
      × (u.lock ≡ false)
unfolding wait_sem post_sem acquire wakeup add_to_queue
post_sem-wait_sem s pid p q z free b real =
    let t : Sem = record s { lock = false; blocked = p ∷ (q ++ (pid ∷ [])) } in
    let u : Sem = record s { value = 1; lock = false; blocked = q ++ (pid ∷ []) } in
    (t, u, ground arith, ground arith, refl, refl, refl)
