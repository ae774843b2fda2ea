-- ===== src/Philosophers.antt =====
-- Userland/SampleCodeModule/philosophers.c: the processes at the table, a shared access at a time.
-- The semaphores are those of the kernel, in Semaphore.antt.
pub mod Mutex
pub mod Safety
pub mod Race
mod Tests
use tpe2_so.Base.{ℕ, ◌+◌, ◌-◌, ◌%◌, ◌<◌, ◌≡◌, ◌≢◌, Bool, List, some, update}
use tpe2_so.Semaphore.{Sem, Call, taken, sleeps, wait_sem, resume_sem, post_sem}

pub data Phase : Type 0 where
  thinking hungry eating : Phase

-- The macros `LEFT` and `RIGHT` at a table of `n`.
unfoldable pub left : ℕ → ℕ → ℕ
left n i = (i + n - 1) % n

unfoldable pub right : ℕ → ℕ → ℕ
right n i = (i + 1) % n

-- Where a philosopher stands in `tryToEat`, and then in `stopEating`.
pub data Place : Type 0 where
  starts loops mutex mutex_asleep test_self test_left test_right takes posts_self leaves : Place
  own own_asleep : Place
  stops stops_asleep puts_down look_left post_left look_right post_right ends : Place

-- `philoVector`, the semaphore MUTEX_ID and those from SEMAPHORE_MIN_ID on.
pub record Table : Type 0 where
  pub phase : ℕ → Phase
  pub mutex : Sem
  pub forks : ℕ → Sem

-- One step of philosopher `i` of `n`. A process that sleeps in `semWait` goes on without a test of the
-- value, as the code does; whether it was woken is left open.
pub data Move (n i : ℕ) (t : Table) : Place → Table → Place → Type 0 where
  get_hungry : Move n i t starts (record t { phase = update t.phase i hungry }) loops
  try : t.phase i ≡ hungry → Move n i t loops t mutex
  eat : t.phase i ≢ hungry → Move n i t loops t stops
  lock :
      {m : Sem} (got : Bool) (pid : ℕ)
      → wait_sem got pid t.mutex ≡ taken m
      → Move n i t mutex (record t { mutex = m }) test_self
  lock_sleep :
      {m : Sem} (got : Bool) (pid : ℕ) (calls : List Call)
      → wait_sem got pid t.mutex ≡ sleeps m calls
      → Move n i t mutex (record t { mutex = m }) mutex_asleep
  lock_wake :
      {m : Sem}
      → resume_sem t.mutex ≡ some m
      → Move n i t mutex_asleep (record t { mutex = m }) test_self
  self_hungry : t.phase i ≡ hungry → Move n i t test_self t test_left
  self_other : t.phase i ≢ hungry → Move n i t test_self t leaves
  left_free : t.phase (left n i) ≢ eating → Move n i t test_left t test_right
  left_eats : t.phase (left n i) ≡ eating → Move n i t test_left t leaves
  right_free : t.phase (right n i) ≢ eating → Move n i t test_right t takes
  right_eats : t.phase (right n i) ≡ eating → Move n i t test_right t leaves
  take : Move n i t takes (record t { phase = update t.phase i eating }) posts_self
  post_self :
      {m : Sem} (calls : List Call)
      → post_sem (t.forks i) ≡ some (m, calls)
      → Move n i t posts_self (record t { forks = update t.forks i m }) leaves
  unlock :
      {m : Sem} (calls : List Call)
      → post_sem t.mutex ≡ some (m, calls)
      → Move n i t leaves (record t { mutex = m }) own
  wait :
      {m : Sem} (got : Bool) (pid : ℕ)
      → wait_sem got pid (t.forks i) ≡ taken m
      → Move n i t own (record t { forks = update t.forks i m }) loops
  wait_sleep :
      {m : Sem} (got : Bool) (pid : ℕ) (calls : List Call)
      → wait_sem got pid (t.forks i) ≡ sleeps m calls
      → Move n i t own (record t { forks = update t.forks i m }) own_asleep
  wait_wake :
      {m : Sem}
      → resume_sem (t.forks i) ≡ some m
      → Move n i t own_asleep (record t { forks = update t.forks i m }) loops
  stop :
      {m : Sem} (got : Bool) (pid : ℕ)
      → wait_sem got pid t.mutex ≡ taken m
      → Move n i t stops (record t { mutex = m }) puts_down
  stop_sleep :
      {m : Sem} (got : Bool) (pid : ℕ) (calls : List Call)
      → wait_sem got pid t.mutex ≡ sleeps m calls
      → Move n i t stops (record t { mutex = m }) stops_asleep
  stop_wake :
      {m : Sem}
      → resume_sem t.mutex ≡ some m
      → Move n i t stops_asleep (record t { mutex = m }) puts_down
  put_down : Move n i t puts_down (record t { phase = update t.phase i thinking }) look_left
  left_hungry : t.phase (left n i) ≡ hungry → Move n i t look_left t post_left
  left_other : t.phase (left n i) ≢ hungry → Move n i t look_left t look_right
  wake_left :
      {m : Sem} (calls : List Call)
      → post_sem (t.forks (left n i)) ≡ some (m, calls)
      → Move n i t post_left (record t { forks = update t.forks (left n i) m }) look_right
  right_hungry : t.phase (right n i) ≡ hungry → Move n i t look_right t post_right
  right_other : t.phase (right n i) ≢ hungry → Move n i t look_right t ends
  wake_right :
      {m : Sem} (calls : List Call)
      → post_sem (t.forks (right n i)) ≡ some (m, calls)
      → Move n i t post_right (record t { forks = update t.forks (right n i) m }) ends
  done :
      {m : Sem} (calls : List Call)
      → post_sem t.mutex ≡ some (m, calls)
      → Move n i t ends (record t { mutex = m }) starts

-- The philosophers of a table, interleaved in any order.
pub data Step (n : ℕ) : Table → (ℕ → Place) → Table → (ℕ → Place) → Type 0 where
  step :
      {t t' : Table} {at : ℕ → Place} {p : Place} (i : ℕ)
      → i < n
      → Move n i t (at i) t' p
      → Step n t at t' (update at i p)

pub data Reach (n : ℕ) (t : Table) : Table → (ℕ → Place) → Type 0 where
  start : Reach n t t (λ i. starts)
  next :
      {t' u : Table} {at at' : ℕ → Place} → Reach n t t' at → Step n t' at u at' → Reach n t u at'

-- What a process finds that goes on after it slept on MUTEX_ID: a value to take.
abbrev pub Finds : Place → ℕ → Type 0
Finds mutex_asleep v = 0 < v
Finds stops_asleep v = 0 < v
Finds _ v = Unit

-- No other process has taken the value for which a sleeper was woken: whenever one goes on, the value
-- is positive.
pub NoTheft : {n : ℕ} {t u : Table} {at : ℕ → Place} → Reach n t u at → Type 0
NoTheft start = Unit
NoTheft (next {t'} {at} r (step i lt m)) = Finds (at i) t'.mutex.value × NoTheft r
