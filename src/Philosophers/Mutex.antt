-- ===== src/Philosophers/Mutex.antt =====
-- The semaphore MUTEX_ID: who is between its wait and its post.
use mathlib.Core.Bool.{true≢false}
use tpe2_so.Base.{
  ℕ, ◌+◌, ◌%◌, ◌^◌, ◌<◌, ◌≤◌, ◌≡◌, ◌≢◌, inl, inr, Bool, true, false, arith, refl, update,
  update_self, update_ne, ==-cases, ◌∙◌, sym, ap,
}
use tpe2_so.Semaphore.Value.{wait_sem-taken, wait_sem-sleeps, resume_sem-some, post_sem-some}
use tpe2_so.Philosophers.{
  Place, Table, Move, Finds, test_self, test_left, test_right, takes, posts_self, leaves, puts_down,
  look_left, post_left, look_right, post_right, ends, get_hungry, try, eat, lock, lock_sleep,
  lock_wake, self_hungry, self_other, left_free, left_eats, right_free, right_eats, take, post_self,
  unlock, wait, wait_sleep, wait_wake, stop, stop_sleep, stop_wake, put_down, left_hungry,
  left_other, wake_left, right_hungry, right_other, wake_right, done,
}

-- Between the two calls.
abbrev pub holds : Place → Bool
holds test_self = true
holds test_left = true
holds test_right = true
holds takes = true
holds posts_self = true
holds leaves = true
holds puts_down = true
holds look_left = true
holds post_left = true
holds look_right = true
holds post_right = true
holds ends = true
holds _ = false

-- At most one process is there, and only while the value is 0.
pub record Excludes (v : ℕ) (at : ℕ → Place) : Type 0 where
  pub low : v ≤ 1
  pub closed : (i : ℕ) → holds (at i) ≡ true → v ≡ 0
  pub unique : (i j : ℕ) → holds (at i) ≡ true → holds (at j) ≡ true → i ≡ j

-- What a move does at the mutex.
pub data Turn (p p' : Place) (v v' : ℕ) : Type 0 where
  same : holds p' ≡ holds p → v' ≡ v → Turn p p' v v'
  locks : 0 < v → v' + 1 ≡ v → Turn p p' v v'
  unlocks : holds p ≡ true → holds p' ≡ false → v' ≡ (v + 1) % 2 ^ 64 → Turn p p' v v'

-- A property of each place, after one process has moved.
pub at-cases {κ} :
    (Q : Place → Type κ) (at : ℕ → Place) (i : ℕ) (p : Place) (k : ℕ)
    → (k ≡ i → Q p)
    → (k ≢ i → Q (at k))
    → Q (update at i p k)
at-cases Q at i p k here there = elim (==-cases k i) [
  | inl e ↦ rw (e, update_self at i p) (here e)
  | inr h ↦ rw (update_ne at i p k h) (there h)
]

-- Who is between the calls after a move that does not change the mutex, was so before.
still :
    (at : ℕ → Place) (i : ℕ) (p' : Place) (k : ℕ)
    → holds p' ≡ holds (at i)
    → holds (update at i p' k) ≡ true
    → holds (at k) ≡ true
still at i p' k h =
    at-cases (λ q. holds q ≡ true → holds (at k) ≡ true) at i p' k
      (λ e b. ap (λ j. holds (at j)) e ∙ sym h ∙ b) (λ ne b. b)

-- While nobody is between the calls, only the one that moves can come there.
alone :
    (at : ℕ → Place) (i : ℕ) (p' : Place) (k : ℕ)
    → ((j : ℕ) → j ≢ i → holds (at j) ≢ true)
    → holds (update at i p' k) ≡ true
    → (k ≡ i) × (holds p' ≡ true)
alone at i p' k nobody =
    at-cases (λ q. holds q ≡ true → (k ≡ i) × (holds p' ≡ true)) at i p' k (λ e b. (e, b))
      (λ ne b. absurd (nobody k ne b))

pub Turn-Excludes :
    (at : ℕ → Place) (i : ℕ) (p' : Place) (v v' : ℕ)
    → Turn (at i) p' v v'
    → Excludes v at
    → Excludes v' (update at i p')
Turn-Excludes at i p' v v' (same h e) x = record {
  low = rw e x.low;
  closed = λ k b. e ∙ x.closed k (still at i p' k h b);
  unique = λ j k b c. x.unique j k (still at i p' j h b) (still at i p' k h c);
}
Turn-Excludes at i p' v v' (locks h e) x =
    let nobody : (j : ℕ) → j ≢ i → holds (at j) ≢ true = λ j ne b. omega (arith, x.closed j b) in
    record {
      low = omega (arith, x.low);
      closed = λ k b. omega (arith, x.low);
      unique = λ j k b c. (alone at i p' j nobody b).0 ∙ sym (alone at i p' k nobody c).0;
    }
Turn-Excludes at i p' v v' (unlocks h h' e) x =
    let nobody : (j : ℕ) → j ≢ i → holds (at j) ≢ true = λ j ne b. ne (x.unique j i b h) in
    let none_left : (k : ℕ) → holds (update at i p' k) ≢ true =
      λ k b. true≢false (sym (alone at i p' k nobody b).1 ∙ h') in
    record {
      low = omega (arith, x.closed i h);
      closed = λ k b. absurd (none_left k b);
      unique = λ j k b c. absurd (none_left j b);
    }

-- What each move does at the mutex, whose value is at most 1.
pub Move-Turn :
    {n i : ℕ} {t t' : Table} {p p' : Place}
    → Move n i t p t' p'
    → t.mutex.value ≤ 1
    → Finds p t.mutex.value
    → Turn p p' t.mutex.value t'.mutex.value
Move-Turn get_hungry l _ = same refl refl
Move-Turn (try _) l _ = same refl refl
Move-Turn (eat _) l _ = same refl refl
Move-Turn {t} (lock {m} got pid e) l _ = let w = wait_sem-taken got pid t.mutex m e in locks w.0 w.1
Move-Turn {t} (lock_sleep {m} got pid calls e) l _ =
    same refl (wait_sem-sleeps got pid t.mutex m calls e)
Move-Turn {t} (lock_wake {m} e) l h = locks h (resume_sem-some t.mutex m h l e)
Move-Turn (self_hungry _) l _ = same refl refl
Move-Turn (self_other _) l _ = same refl refl
Move-Turn (left_free _) l _ = same refl refl
Move-Turn (left_eats _) l _ = same refl refl
Move-Turn (right_free _) l _ = same refl refl
Move-Turn (right_eats _) l _ = same refl refl
Move-Turn take l _ = same refl refl
Move-Turn (post_self _ _) l _ = same refl refl
Move-Turn {t} (unlock {m} calls e) l _ = unlocks refl refl (post_sem-some t.mutex m calls e)
Move-Turn (wait _ _ _) l _ = same refl refl
Move-Turn (wait_sleep _ _ _ _) l _ = same refl refl
Move-Turn (wait_wake _) l _ = same refl refl
Move-Turn {t} (stop {m} got pid e) l _ = let w = wait_sem-taken got pid t.mutex m e in locks w.0 w.1
Move-Turn {t} (stop_sleep {m} got pid calls e) l _ =
    same refl (wait_sem-sleeps got pid t.mutex m calls e)
Move-Turn {t} (stop_wake {m} e) l h = locks h (resume_sem-some t.mutex m h l e)
Move-Turn put_down l _ = same refl refl
Move-Turn (left_hungry _) l _ = same refl refl
Move-Turn (left_other _) l _ = same refl refl
Move-Turn (wake_left _ _) l _ = same refl refl
Move-Turn (right_hungry _) l _ = same refl refl
Move-Turn (right_other _) l _ = same refl refl
Move-Turn (wake_right _ _) l _ = same refl refl
Move-Turn {t} (done {m} calls e) l _ = unlocks refl refl (post_sem-some t.mutex m calls e)
