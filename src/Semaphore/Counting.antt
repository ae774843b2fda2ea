-- ===== src/Semaphore/Counting.antt =====
-- The value of a semaphore against what was posted and taken.
use tpe2_so.Base.{
  ℕ, suc, ◌+◌, ◌-◌, ◌%◌, ◌^◌, ◌<◌, ◌≡◌, refl, Bool, false, some, List, [], ◌∷◌, arith, length,
}
use tpe2_so.Semaphore.{
  Sem, taken, sleeps, wait_sem, resume_sem, post_sem, Call, unblock, acquire, wakeup,
}

-- A step of any process at one semaphore. It counts the posts, the waits that returned, and the
-- processes that were unblocked and have not gone on yet.
pub data Step : Sem → ℕ → ℕ → ℕ → Sem → ℕ → ℕ → ℕ → Type 0 where
  take :
      {s s' : Sem} (got : Bool) (pid posts waits woken : ℕ)
      → wait_sem got pid s ≡ taken s'
      → Step s posts waits woken s' posts (suc waits) woken
  sleep :
      {s s' : Sem} (got : Bool) (pid posts waits woken : ℕ) (calls : List Call)
      → wait_sem got pid s ≡ sleeps s' calls
      → Step s posts waits woken s' posts waits woken
  resume :
      {s s' : Sem} (posts waits woken : ℕ)
      → resume_sem s ≡ some s'
      → Step s posts waits (suc woken) s' posts (suc waits) woken
  post :
      {s s' : Sem} (posts waits woken : ℕ) (calls : List Call)
      → post_sem s ≡ some (s', calls)
      → Step s posts waits woken s' (suc posts) waits (length calls + woken)

pub data Reach (s : Sem) : Sem → ℕ → ℕ → ℕ → Type 0 where
  start : Reach s s 0 0 0
  next :
      {t u : Sem} {p w k p' w' k' : ℕ}
      → Reach s t p w k
      → Step t p w k u p' w' k'
      → Reach s u p' w' k'

-- The value is a word, the lock is free, and the count is kept modulo 2 ^ 64.
pub record Counts (init : ℕ) (s : Sem) (posts waits : ℕ) : Type 0 where
  pub word : s.value < 2 ^ 64
  pub free : s.lock ≡ false
  pub count : (s.value + waits) % 2 ^ 64 ≡ (init + posts) % 2 ^ 64

Step-Counts :
    (init : ℕ) {s t : Sem} {p w k p' w' k' : ℕ}
    → Step s p w k t p' w' k'
    → Counts init s p w
    → Counts init t p' w'
unfolding wait_sem resume_sem post_sem acquire
Step-Counts init (take got pid posts waits woken e) c = ground arith
Step-Counts init (sleep got pid posts waits woken calls e) c = ground arith
Step-Counts init (resume posts waits woken e) c = ground arith
Step-Counts init (post posts waits woken calls e) c = ground arith

-- From a semaphore whose value is a word and whose lock is free, whatever the interleaving of waits,
-- wake-ups and posts, the lock is free between calls, the value is a word, and value and waits that
-- returned make up the initial value and the posts, modulo 2 ^ 64.
pub Reach-Counts :
    (s t : Sem) (posts waits woken : ℕ)
    → s.value < 2 ^ 64
    → s.lock ≡ false
    → Reach s t posts waits woken
    → Counts s.value t posts waits
Reach-Counts s t posts waits woken word free start = record {
  word = word;
  free = free;
  count = omega arith;
}
Reach-Counts s t posts waits woken word free (next {t = u} {p} {w} {k} r st) =
    Step-Counts s.value st (Reach-Counts s u p w k word free r)

-- Where the value is 0, the lock is free and a process with no negative pid is the first asleep, a
-- state is reached with one post, two waits that returned and nobody woken left, in which the value is
-- 2 ^ 64 - 1.
pub stolen_wakeup :
    (s : Sem) (got : Bool) (sleeper thief : ℕ) (queue : List ℕ)
    → s.value ≡ 0
    → s.lock ≡ false
    → s.blocked ≡ sleeper ∷ queue
    → sleeper < 2 ^ 31
    → (u : Sem) × Reach s u 1 2 0 × (u.value ≡ 2 ^ 64 - 1)
unfolding wait_sem resume_sem post_sem acquire wakeup
stolen_wakeup s got sleeper thief queue z free b real =
    let s1 : Sem = record s { value = 1; lock = false; blocked = queue } in
    let s2 : Sem = record s1 { value = 0 } in
    let s3 : Sem = record s1 { value = 2 ^ 64 - 1 } in
    (
      s3,
      next {t = s2}
          (next {t = s1} (next {t = s} start (post 0 0 0 (unblock sleeper ∷ []) (ground arith)))
            (take got thief 1 0 1 (ground arith)))
          (resume 1 1 0 (ground arith)),
      refl,
    )
