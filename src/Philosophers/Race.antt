-- ===== src/Philosophers/Race.antt =====
-- The race that `NoTheft` leaves out, on a table of two: a philosopher goes on after it slept on the
-- semaphore of the table, although the other one has taken the value in between.
use tpe2_so.Base.{ℕ, ◌-◌, ◌^◌, ◌≡◌, ◌≢◌, refl, true, false, List, [], ◌∷◌, arith}
use tpe2_so.Semaphore.{
  Sem, unblock, block, wait_sem, resume_sem, post_sem, acquire, wakeup, add_to_queue,
}
use tpe2_so.Philosophers.{
  hungry, thinking, eating, left, right, Place, Table, step, Reach, start, next, get_hungry, try,
  eat, lock, lock_sleep, lock_wake, self_hungry, left_free, right_free, take, post_self, unlock,
  wait, stop, put_down, left_hungry, wake_left, right_hungry, wake_right, done,
}

abbrev sem : ℕ → ℕ → List ℕ → Sem
sem id value blocked = record {
  id = id;
  value = value;
  lock = false;
  active = [];
  blocked = blocked;
}

abbrev table : Table
table = record { phase = λ i. thinking; mutex = sem 128 1 []; forks = λ i. sem 129 0 [] }

hungry-ne-eating : hungry ≢ eating
hungry-ne-eating e = cc

eating-ne-hungry : eating ≢ hungry
eating-ne-hungry e = cc

-- The first philosopher eats while the second sleeps, and wakes it; but it comes back twice, to put its
-- forks down and to eat again, before the second goes on. Then both pass their tests, and both eat.
both_eat :
    (u : Table) × (at : ℕ → Place) × Reach 2 table u at
    × (u.phase 0 ≡ eating)
    × (u.phase 1 ≡ eating)
unfolding left right wait_sem resume_sem post_sem acquire wakeup add_to_queue
both_eat =
    let r1 = next start (step 0 (omega arith) get_hungry) in
    let r2 = next r1 (step 0 (omega arith) (try refl)) in
    let r3 = next r2 (step 0 (omega arith) (lock {m = sem 128 0 []} true 7 refl)) in
    let r4 = next r3 (step 1 (omega arith) get_hungry) in
    let r5 = next r4 (step 1 (omega arith) (try refl)) in
    let r6 =
      next r5
        (step 1 (omega arith) (lock_sleep {m = sem 128 0 (8 ∷ [])} true 8 (block 8 ∷ []) refl)) in
    let r7 = next r6 (step 0 (omega arith) (self_hungry refl)) in
    let r8 = next r7 (step 0 (omega arith) (left_free hungry-ne-eating)) in
    let r9 = next r8 (step 0 (omega arith) (right_free hungry-ne-eating)) in
    let r10 = next r9 (step 0 (omega arith) take) in
    let r11 = next r10 (step 0 (omega arith) (post_self {m = sem 129 1 []} [] refl)) in
    let r12 = next r11 (step 0 (omega arith) (unlock {m = sem 128 1 []} (unblock 8 ∷ []) refl)) in
    let r13 = next r12 (step 0 (omega arith) (wait {m = sem 129 0 []} true 7 refl)) in
    let r14 = next r13 (step 0 (omega arith) (eat eating-ne-hungry)) in
    let r15 = next r14 (step 0 (omega arith) (stop {m = sem 128 0 []} true 7 refl)) in
    let r16 = next r15 (step 0 (omega arith) put_down) in
    let r17 = next r16 (step 0 (omega arith) (left_hungry refl)) in
    let r18 = next r17 (step 0 (omega arith) (wake_left {m = sem 129 1 []} [] refl)) in
    let r19 = next r18 (step 0 (omega arith) (right_hungry refl)) in
    let r20 = next r19 (step 0 (omega arith) (wake_right {m = sem 129 2 []} [] refl)) in
    let r21 = next r20 (step 0 (omega arith) (done {m = sem 128 1 []} [] refl)) in
    let r22 = next r21 (step 0 (omega arith) get_hungry) in
    let r23 = next r22 (step 0 (omega arith) (try refl)) in
    let r24 = next r23 (step 0 (omega arith) (lock {m = sem 128 0 []} true 7 refl)) in
    let r25 = next r24 (step 1 (omega arith) (lock_wake {m = sem 128 (2 ^ 64 - 1) []} refl)) in
    let r26 = next r25 (step 0 (omega arith) (self_hungry refl)) in
    let r27 = next r26 (step 0 (omega arith) (left_free hungry-ne-eating)) in
    let r28 = next r27 (step 0 (omega arith) (right_free hungry-ne-eating)) in
    let r29 = next r28 (step 1 (omega arith) (self_hungry refl)) in
    let r30 = next r29 (step 1 (omega arith) (left_free hungry-ne-eating)) in
    let r31 = next r30 (step 1 (omega arith) (right_free hungry-ne-eating)) in
    let r32 = next r31 (step 0 (omega arith) take) in
    let r33 = next r32 (step 1 (omega arith) take) in (_, _, r33, refl, refl)
