-- ===== src/Semaphore/Tests.antt =====
-- Semaphores at concrete states.
use tpe2_so.Base.{◌-◌, ◌^◌, ◌≡◌, refl, true, false, some, [], ◌∷◌, ◌++◌, arith}
use tpe2_so.Semaphore.{Sem, wait_sem, sleeps, post_sem, block, unblock, acquire, wakeup}
use tpe2_so.Semaphore.Counting.{Reach, start, next, post, Counts, Reach-Counts, stolen_wakeup}
use tpe2_so.Semaphore.Queue.{post_sem-wait_sem}

-- Value 0, with process 4 asleep.
abbrev waiting : Sem
waiting = record { id = 9; value = 0; lock = false; active = 4 ∷ 5 ∷ []; blocked = 4 ∷ [] }

abbrev posted_once : Sem
posted_once = record waiting { value = 1; blocked = [] }

one_post : Reach waiting posted_once 1 0 1
unfolding post_sem acquire wakeup
one_post = next {t = waiting} start (post 0 0 0 (unblock 4 ∷ []) refl)

Reach-Counts_example : Counts 0 posted_once 1 0
Reach-Counts_example = Reach-Counts waiting posted_once 1 0 1 (omega arith) refl one_post

stolen_wakeup_example : (u : Sem) × Reach waiting u 1 2 0 × (u.value ≡ 2 ^ 64 - 1)
stolen_wakeup_example = stolen_wakeup waiting true 4 5 [] refl refl refl (omega arith)

post_sem-wait_sem_example :
    (t u : Sem) × (wait_sem true 5 waiting ≡ sleeps t (block 5 ∷ []))
    × (post_sem t ≡ some (u, unblock 4 ∷ []))
    × (u.blocked ≡ [] ++ (5 ∷ []))
    × (u.value ≡ 1)
    × (u.lock ≡ false)
post_sem-wait_sem_example = post_sem-wait_sem waiting 5 4 [] refl refl refl (omega arith)
