-- ===== src/Philosophers/Tests.antt =====
-- Two philosophers, of whom the first has sat down to eat.
use tpe2_so.Base.{ℕ, ◌≢◌, refl, true, false, List, [], ◌∷◌, arith, update}
use tpe2_so.Semaphore.{Sem}
use tpe2_so.Semaphore.Value.{wait_sem-one}
use tpe2_so.Philosophers.{
  hungry, thinking, eating, left, right, Place, Table, step, Reach, start, next, starts, get_hungry,
  try, lock, self_hungry, left_free, right_free, take, NoTheft, loops, mutex, test_self, test_left,
  test_right, takes, posts_self,
}
use tpe2_so.Philosophers.Safety.{neighbours_apart}

abbrev sem : ℕ → ℕ → Sem
sem id value = record { id = id; value = value; lock = false; active = []; blocked = [] }

abbrev table : Table
table = record { phase = λ i. thinking; mutex = sem 128 1; forks = λ i. sem 129 0 }

abbrev at_0 : Place → ℕ → Place
at_0 p = update (λ i. starts) 0 p

abbrev asked : Table
asked = record table { phase = update table.phase 0 hungry }

abbrev locked : Table
locked = record asked { mutex = sem 128 0 }

abbrev fed : Table
fed = record locked { phase = update locked.phase 0 eating }

-- The places of the two after each step of the first.
abbrev places : List Place → ℕ → Place
places [] = λ i. starts
places (p ∷ ps) = update (places ps) 0 p

abbrev path : List Place
path = posts_self ∷ takes ∷ test_right ∷ test_left ∷ test_self ∷ mutex ∷ loops ∷ []

first_eats : Reach 2 table fed (places path)
unfolding left right
first_eats =
    next
      (next
        (next
          (next
            (next
              (next (next start (step 0 (omega arith) get_hungry))
                (step 0 (omega arith) (try refl)))
              (step 0 (omega arith) (lock true 7 (wait_sem-one true 7 128))))
            (step 0 (omega arith) (self_hungry refl)))
          (step 0 (omega arith) (left_free (λ e. cc))))
        (step 0 (omega arith) (right_free (λ e. cc))))
      (step 0 (omega arith) take)

first_eats-NoTheft : NoTheft first_eats
unfolding first_eats NoTheft
first_eats-NoTheft = (tt, (tt, (tt, (tt, (tt, (tt, (tt, tt)))))))

neighbours_apart_example : fed.phase (right 2 0) ≢ eating
neighbours_apart_example =
    neighbours_apart 2 table fed (places path) 0 (omega arith) refl (λ k lt e e2. cc) first_eats
      first_eats-NoTheft (omega arith) refl
