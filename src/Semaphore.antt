-- ===== src/Semaphore.antt =====
-- Kernel/Semaphores/semaphores.c and spinlock.c: counting semaphores with queues of processes. A
-- queue is the list of its pids and `semList` the list of semaphores, both in the order of the
-- `next` pointers; whether each `alloc` succeeds is an argument.
pub mod Counting
pub mod Queue
pub mod Value
mod Tests
use tpe2_so.Base.{
  ℕ, zero, suc, ◌+◌, ◌-◌, ◌%◌, ◌^◌, Bool, true, false, not, ◌&&◌, Option, none, some, List, [], ◌∷◌,
  ◌++◌, ltb, ◌==◌, if◌then◌else◌, add64, sub64,
}

pub record Sem : Type 0 where
  pub id : ℕ
  pub value : ℕ
  pub lock : Bool
  pub active : List ℕ
  pub blocked : List ℕ

-- What a semaphore asks of the scheduler.
pub data Call : Type 0 where
  block unblock : ℕ → Call
  yield : Call

-- The results of the `int` functions: -1 and -2 as words.
abbrev pub minus_one : ℕ
minus_one = 2 ^ 32 - 1

abbrev pub minus_two : ℕ
minus_two = 2 ^ 32 - 2

pub search : List Sem → ℕ → Option Sem
search [] id = none
search (s ∷ sems) id = let rest = search sems id in if s.id == id then some s else rest

-- A write through the pointer that `search` returns.
pub put : List Sem → Sem → List Sem
put [] s' = []
put (s ∷ sems) s' = let rest = put sems s' in if s.id == s'.id then s' ∷ sems else s ∷ rest

-- `removeSemaphore`.
pub remove : List Sem → ℕ → List Sem
remove [] id = []
remove (s ∷ sems) id = let rest = remove sems id in if s.id == id then sems else s ∷ rest

pub contains : List ℕ → ℕ → Bool
contains [] pid = false
contains (p ∷ q) pid = let rest = contains q pid in if p == pid then true else rest

-- `addToProcessQueue`.
unfoldable pub add_to_queue : Bool → List ℕ → ℕ → Bool → List ℕ
add_to_queue got q pid is_active =
    if is_active && contains q pid then q else if got then q ++ (pid ∷ []) else q

-- `removeFromQueue`.
pub remove_from_queue : List ℕ → ℕ → List ℕ
remove_from_queue [] pid = []
remove_from_queue (p ∷ q) pid =
    let rest = remove_from_queue q pid in if p == pid then q else p ∷ rest

-- `wakeup`: the queue without its first process, and what is unblocked. A pid is an `int`.
unfoldable pub wakeup : List ℕ → List ℕ × List Call
wakeup [] = ([], [])
wakeup (p ∷ q) = (q, if ltb p (2 ^ 31) then unblock p ∷ [] else [])

-- `acquire` spins for ever on a lock that is held: `none`.
unfoldable pub acquire : Sem → Option Sem
acquire s = if s.lock then none else some (record s { lock = true })

abbrev pub release : Sem → Sem
release s = record s { lock = false }

-- `semOpen`; the two flags are the results of the two calls of `alloc`.
pub sem_open : Bool → Bool → List Sem → ℕ → ℕ → ℕ → List Sem × ℕ
sem_open got_sem got_node sems pid id value = elim (search sems id) [
  | some s ↦ (put sems (record s { active = add_to_queue got_node s.active pid true }), 0)
  | none ↦
      if got_sem
      then (
        sems
            ++ (record {
              id = id;
              value = value;
              lock = false;
              active = add_to_queue got_node [] pid true;
              blocked = [];
            }
                ∷ []),
        1,
      )
      else (sems, minus_one)
]

-- `semWait` on its semaphore, up to the point where the process sleeps: whether it does.
pub data Waiting : Type 0 where
  spins : Waiting
  taken : Sem → Waiting
  sleeps : Sem → List Call → Waiting

unfoldable pub wait_sem : Bool → ℕ → Sem → Waiting
wait_sem got pid s0 = elim (acquire s0) [
  | none ↦ spins
  | some s ↦
      if ltb 0 s.value
      then taken (release (record s { value = s.value - 1 }))
      else sleeps (record (release s) { blocked = add_to_queue got s.blocked pid false })
          (block pid ∷ [])
]

-- `semWait` from where the process is unblocked.
unfoldable pub resume_sem : Sem → Option Sem
resume_sem s0 = elim (acquire s0) [
  | none ↦ none
  | some s ↦ some (release (record s { value = sub64 s.value 1 }))
]

-- `semPost` on its semaphore.
unfoldable pub post_sem : Sem → Option (Sem × List Call)
post_sem s0 = elim (acquire s0) [
  | none ↦ none
  | some s ↦
      let w = wakeup s.blocked in
      some (release (record s { value = add64 s.value 1; blocked = w.0 }), w.1)
]

pub data WaitResult : Type 0 where
  wait_absent wait_spins : WaitResult
  wait_taken : List Sem → WaitResult
  wait_sleeps : List Sem → List Call → WaitResult

pub sem_wait : Bool → List Sem → ℕ → ℕ → WaitResult
sem_wait got sems pid id = elim (search sems id) [
  | none ↦ wait_absent
  | some s ↦ elim (wait_sem got pid s) [
    | spins ↦ wait_spins
    | taken s' ↦ wait_taken (put sems s')
    | sleeps s' calls ↦ wait_sleeps (put sems s') calls
  ]
]

pub data PostResult : Type 0 where
  post_absent post_spins : PostResult
  posted : List Sem → List Call → PostResult

pub sem_post : List Sem → ℕ → PostResult
sem_post sems id = elim (search sems id) [
  | none ↦ post_absent
  | some s ↦ elim (post_sem s) [
    | none ↦ post_spins
    | some r ↦ posted (put sems r.0) (r.1 ++ (yield ∷ []))
  ]
]

pub sem_close : List Sem → ℕ → ℕ → List Sem × ℕ
sem_close sems pid id = elim (search sems id) [
  | none ↦ (sems, minus_one)
  | some s ↦
      if not (contains s.active pid)
      then (sems, minus_two)
      else (let active : List ℕ = remove_from_queue s.active pid in
          let kept : List Sem = put sems (record s { active = active }) in
          elim active [ [] ↦ (remove kept s.id, 1) | _ ∷ _ ↦ (kept, 1) ])
]

pub delete_semaphore : List Sem → ℕ → List Sem × ℕ
delete_semaphore sems id = elim (search sems id) [
  | none ↦ (sems, minus_one)
  | some s ↦ (remove sems s.id, 1)
]
