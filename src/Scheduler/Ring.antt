-- ===== src/Scheduler/Ring.antt =====
-- The ring of ready processes: what a list of nodes means, and the search in it.
use tpe2_so.Base.{
  ℕ, ◌≡◌, ◌≢◌, refl, List, [], ◌∷◌, length, update, update_ne, ◌==◌, if◌then◌else◌, All,
}
use tpe2_so.Scheduler.{Sched, Pcb, null, search_ring, search_ready}

-- From `p` the `next` fields lead through the nodes `xs` to `q`.
abbrev pub Leads : (ℕ → ℕ) → ℕ → List ℕ → ℕ → Type 0
Leads nx p [] q = p ≡ q
Leads nx p (x ∷ xs) q = (p ≡ x) × Leads nx (nx x) xs q

-- The `prev` field of the node behind each node of the list leads back to it.
abbrev pub Back : (ℕ → ℕ) → (ℕ → ℕ) → List ℕ → Type 0
Back nx pv xs = All (λ x. pv (nx x) ≡ x) xs

abbrev pub NotIn : ℕ → List ℕ → Type 0
NotIn a [] = Unit
NotIn a (x ∷ xs) = (x ≢ a) × NotIn a xs

abbrev pub Distinct : List ℕ → Type 0
Distinct [] = Unit
Distinct (x ∷ xs) = NotIn x xs × Distinct xs

-- The ready processes are `xs`, in the order in which their turns come: the first is the current
-- one, and the last leads back to it.
pub record IsRing (s : Sched) (xs : List ℕ) : Type 0 where
  pub count : s.counter ≡ length xs
  pub some_node : xs ≢ []
  pub leads : Leads s.next s.current xs s.current
  pub back : Back s.next s.prev xs
  pub distinct : Distinct xs
  pub real : NotIn null xs

-- The first node of the list whose process has the number, or NULL.
unfoldable pub find_pid : (ℕ → Pcb) → List ℕ → ℕ → ℕ
find_pid pcb [] pid = null
find_pid pcb (x ∷ xs) pid = if (pcb x).pid == pid then x else find_pid pcb xs pid

search_ring-find_pid :
    (s : Sched) (p q pid : ℕ) (xs : List ℕ)
    → Leads s.next p xs q
    → search_ring (length xs) s p pid ≡ find_pid s.pcb xs pid
unfolding search_ring find_pid
search_ring-find_pid s p q pid [] l = refl
search_ring-find_pid s p q pid (x ∷ xs) (e, l) =
    rw (e, search_ring-find_pid s (s.next x) q pid xs l)

-- `searchReadyNode` on a ring finds the first process with the number in the order of the turns, and
-- returns NULL if there is none.
pub search_ready-find_pid :
    (s : Sched) (xs : List ℕ) (pid : ℕ) → IsRing s xs → search_ready s pid ≡ find_pid s.pcb xs pid
unfolding search_ready
search_ready-find_pid s xs pid r =
    simp r.count (search_ring-find_pid s s.current s.current pid xs r.leads)

pub Leads-frame :
    (nx : ℕ → ℕ) (a v p q : ℕ) (xs : List ℕ)
    → NotIn a xs
    → Leads nx p xs q
    → Leads (update nx a v) p xs q
Leads-frame nx a v p q [] n l = l
Leads-frame nx a v p q (x ∷ xs) (ne, n) (e, l) =
    (e, rw (update_ne nx a v x ne) (Leads-frame nx a v (nx x) q xs n l))
