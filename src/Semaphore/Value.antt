-- ===== src/Semaphore/Value.antt =====
-- What each call does to the value of a semaphore.
use tpe2_so.Base.{ℕ, ◌+◌, ◌%◌, ◌^◌, ◌<◌, ◌≤◌, ◌≡◌, refl, Bool, false, List, [], some, arith}
use tpe2_so.Semaphore.{Sem, Call, taken, sleeps, wait_sem, resume_sem, post_sem, acquire}

pub wait_sem-taken :
    (got : Bool) (pid : ℕ) (s t : Sem)
    → wait_sem got pid s ≡ taken t
    → (0 < s.value) × (t.value + 1 ≡ s.value)
unfolding wait_sem acquire
wait_sem-taken got pid s t e = ground arith

pub wait_sem-sleeps :
    (got : Bool) (pid : ℕ) (s t : Sem) (calls : List Call)
    → wait_sem got pid s ≡ sleeps t calls
    → t.value ≡ s.value
unfolding wait_sem acquire
wait_sem-sleeps got pid s t calls e = ground arith

pub resume_sem-some :
    (s t : Sem) → 0 < s.value → s.value ≤ 1 → resume_sem s ≡ some t → t.value + 1 ≡ s.value
unfolding resume_sem acquire
resume_sem-some s t h l e = ground arith

pub post_sem-some :
    (s t : Sem) (calls : List Call)
    → post_sem s ≡ some (t, calls)
    → t.value ≡ (s.value + 1) % 2 ^ 64
unfolding post_sem acquire
post_sem-some s t calls e = ground arith

-- A free semaphore with the value 1.
pub wait_sem-one :
    (got : Bool) (pid id : ℕ)
    → wait_sem got pid (record { id = id; value = 1; lock = false; active = []; blocked = [] })
      ≡ taken (record { id = id; value = 0; lock = false; active = []; blocked = [] })
unfolding wait_sem acquire
wait_sem-one got pid id = refl
