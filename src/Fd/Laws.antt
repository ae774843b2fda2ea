-- ===== src/Fd/Laws.antt =====
-- The table hands out the lowest free descriptor, and closes a pipe's end with its last reference.
use tpe2_so.Base.{
  ℕ, zero, suc, ◌+◌, ◌-◌, ◌^◌, ◌≤◌, ◌<◌, ◌≡◌, ◌≢◌, inl, inr, refl, Option, none, some, update,
  arith, ==-cases, ne→==, le→ltb, update_self, ◌∙◌, ap, List, [], ◌∷◌, true, ltb, lt→ltb,
  if◌then◌else◌,
}
use tpe2_so.Pipe.{FdType}
use tpe2_so.Fd.{Fd, Table, max_fd, minus_one, null, init_from, init_fd, close_fd, fd_dup}

-- What `initFd` comes to, searching from `i` to `j`.
pub data Opened (t : Table) (type : FdType) (pipe i j : ℕ) : ℕ × Table → Type 0 where
  lowest :
      (k : ℕ)
      → i ≤ k
      → k < j
      → (t k).ref ≡ 0
      → ((m : ℕ) → i ≤ m → m < k → (t m).ref ≢ 0)
      → Opened t type pipe i j (k, update t k (record { ref = 1; type = type; pipe = pipe }))
  exhausted : ((m : ℕ) → i ≤ m → m < j → (t m).ref ≢ 0) → Opened t type pipe i j (minus_one, t)

Opened-next :
    (t : Table) (type : FdType) (pipe i j : ℕ) {r : ℕ × Table}
    → (t i).ref ≢ 0
    → Opened t type pipe (i + 1) j r
    → Opened t type pipe i j r
Opened-next t type pipe i j used (lowest k l h z m) =
    lowest k (omega arith) h z
      (λ n a b. elim (==-cases n i) [ inl e ↦ rw e used | inr ne ↦ m n (omega arith) b ])
Opened-next t type pipe i j used (exhausted m) =
    exhausted (λ n a b. elim (==-cases n i) [ inl e ↦ rw e used | inr ne ↦ m n (omega arith) b ])

init_from-Opened :
    (k i j : ℕ) (t : Table) (type : FdType) (pipe : ℕ)
    → i + k ≡ j
    → Opened t type pipe i j (init_from k i t type pipe)
unfolding init_from
init_from-Opened zero i j t type pipe e = exhausted (λ m a b. absurd (omega arith))
init_from-Opened (suc k) i j t type pipe e = elim (==-cases (t i).ref 0) [
  | inl free ↦ rw free (lowest i (omega arith) (omega arith) free (λ m a b. absurd (omega arith)))
  | inr used ↦
      rw (ne→== (t i).ref 0 used)
        (Opened-next t type pipe i j used (init_from-Opened k (i + 1) j t type pipe (omega arith)))
]

-- `initFd` takes the lowest entry from 3 to 254 that has no reference, fills it in and returns its
-- number; it returns -1 and changes nothing only when every one of these has a reference.
pub init_fd-Opened :
    (t : Table) (type : FdType) (pipe : ℕ) → Opened t type pipe 3 max_fd (init_fd t type pipe)
unfolding init_fd
init_fd-Opened t type pipe = init_from-Opened (max_fd - 3) 3 max_fd t type pipe (omega arith)

-- A descriptor below 255 in use, with fewer than 2 ^ 64 - 1 references, that is duplicated and then
-- closed is as it was; the result is 0 and no end of a pipe is closed.
close_fd-fd_dup :
    (t : Table) (id : ℕ)
    → id < max_fd
    → (t id).ref ≢ 0
    → (t id).ref < 2 ^ 64 - 1
    → (close_fd (fd_dup t id) id).0 ≡ 0
      × (close_fd (fd_dup t id) id).1 id ≡ t id
      × (close_fd (fd_dup t id) id).2 ≡ none
unfolding close_fd fd_dup
close_fd-fd_dup t id h used small = ground arith

abbrev pub collect {ℓ} : {A : Type ℓ} → Option A → List A → List A
collect none l = l
collect (some a) l = a ∷ l

-- The ends that a number of calls of `closeFd` on one descriptor close.
pub closed_ends : ℕ → Table → ℕ → List (ℕ × FdType)
closed_ends zero t id = []
closed_ends (suc n) t id =
    let rest = closed_ends n (close_fd t id).1 id in collect (close_fd t id).2 rest

closed_ends-none : (n : ℕ) (t : Table) (id : ℕ) → (t id).ref ≡ 0 → closed_ends n t id ≡ []
unfolding closed_ends close_fd
closed_ends-none zero t id z = refl
closed_ends-none (suc n) t id z = ground (arith, closed_ends-none n t id)

close_fd-more :
    (t : Table) (id r : ℕ)
    → id ≤ max_fd
    → (t id).ref ≡ suc (suc r)
    → suc (suc r) < 2 ^ 64
    → close_fd t id ≡ (0, update t id (record (t id) { ref = suc r }), none)
unfolding close_fd
close_fd-more t id r h e small = ground arith

close_fd-last :
    (t : Table) (id : ℕ)
    → id ≤ max_fd
    → (t id).ref ≡ 1
    → close_fd t id
      ≡ (0, update t id (record (t id) { ref = 0; pipe = null }), some ((t id).pipe, (t id).type))
unfolding close_fd
close_fd-last t id h e = rw (e, le→ltb max_fd id h)

-- A descriptor with references, of which there are fewer than 2 ^ 64, that is closed a number of times:
-- with fewer calls than references no end of a pipe is closed; with as many calls, or more, its end of
-- the pipe is closed exactly once.
pub closed_ends-once :
    (r n : ℕ) (t : Table) (id : ℕ)
    → id ≤ max_fd
    → (t id).ref ≡ suc r
    → suc r < 2 ^ 64
    → closed_ends n t id ≡ (if ltb r n then ((t id).pipe, (t id).type) ∷ [] else [])
unfolding closed_ends
closed_ends-once r zero t id h e small = ground arith
closed_ends-once zero (suc n) t id h e small =
    let t' : Table = update t id (record (t id) { ref = 0; pipe = null }) in
    let last : ltb 0 (suc n) ≡ true = lt→ltb 0 (suc n) (omega arith) in
    rw (close_fd-last t id h e, last)
      (ap (λ l. ((t id).pipe, (t id).type) ∷ l) (closed_ends-none n t' id (ground arith)))
closed_ends-once (suc r) (suc n) t id h e small =
    let fd : Fd = record (t id) { ref = suc r } in
    let t' : Table = update t id fd in
    let same : t' id ≡ fd = update_self t id fd in
    let tests : ltb (suc r) (suc n) ≡ ltb r n = ground arith in
    rw (close_fd-more t id r h e small, tests)
      (closed_ends-once r n t' id h (ap (λ (f : Fd). f.ref) same) (omega arith)
        ∙ ap (λ (f : Fd). if ltb r n then (f.pipe, f.type) ∷ [] else []) same)
