-- ===== src/Philosophers/Safety.antt =====
-- No two neighbours eat at once.
use mathlib.Core.Bool.{true≢false}
use native.Mathlib.Nat.{mod-eq_of_lt, add-mod_right, mod_self}
use tpe2_so.Base.{
  ℕ, ◌+◌, ◌-◌, ◌%◌, ◌<◌, ◌≤◌, ◌≡◌, ◌≢◌, inl, inr, Bool, true, false, arith, refl, update,
  update_self, update_ne, ==-cases, ◌∙◌, sym, ap,
}
use tpe2_so.Philosophers.{
  Phase, hungry, thinking, eating, left, right, Place, Table, Move, step, Reach, start, next, Finds,
  NoTheft, starts, loops, mutex, mutex_asleep, test_self, test_left, test_right, takes, posts_self,
  leaves, own, own_asleep, stops, stops_asleep, puts_down, look_left, post_left, look_right,
  post_right, ends, get_hungry, try, eat, lock, lock_sleep, lock_wake, self_hungry, self_other,
  left_free, left_eats, right_free, right_eats, take, post_self, unlock, wait, wait_sleep,
  wait_wake, stop, stop_sleep, stop_wake, put_down, left_hungry, left_other, wake_left,
  right_hungry, right_other, wake_right, done,
}
use tpe2_so.Philosophers.Mutex.{holds, Excludes, at-cases, Turn-Excludes, Move-Turn}

left-right : (n k : ℕ) → k < n → left n (right n k) ≡ k
unfolding left right
left-right n k h = elim (==-cases (k + 1) n) [
  | inl e ↦
      let back : 0 + n - 1 ≡ k = omega arith in
      rw (ap (λ m. m % n) e ∙ mod_self n) (ap (λ m. m % n) back ∙ mod-eq_of_lt h)
  | inr ne ↦
      let back : k + 1 + n - 1 ≡ k + n = omega arith in
      rw (mod-eq_of_lt {n = k + 1} {m = n} (omega arith))
        (ap (λ m. m % n) back ∙ add-mod_right k n ∙ mod-eq_of_lt h)
]

right-ne : (n k : ℕ) → 2 ≤ n → k < n → right n k ≢ k
unfolding right
right-ne n k two h = elim (==-cases (k + 1) n) [
  | inl e ↦ λ c. omega (arith, sym (ap (λ m. m % n) e ∙ mod_self n) ∙ c)
  | inr ne ↦ λ c. omega (arith, sym (mod-eq_of_lt {n = k + 1} {m = n} (omega arith)) ∙ c)
]

-- The tests on the neighbours that have been passed.
abbrev seen_left : Place → Bool
seen_left test_right = true
seen_left takes = true
seen_left _ = false

abbrev seen_right : Place → Bool
seen_right takes = true
seen_right _ = false

record Seats (n : ℕ) (f : ℕ → Phase) (at : ℕ → Place) : Type 0 where
  left_ok : (i : ℕ) → seen_left (at i) ≡ true → f (left n i) ≢ eating
  right_ok : (i : ℕ) → seen_right (at i) ≡ true → f (right n i) ≢ eating
  apart : (i : ℕ) → i < n → f i ≡ eating → f (right n i) ≢ eating

-- What a move does to the phases.
data Writes (n i : ℕ) (p p' : Place) (f f' : ℕ → Phase) : Type 0 where
  keeps : f' ≡ f → seen_left p' ≡ false → seen_right p' ≡ false → Writes n i p p' f f'
  saw_left : f' ≡ f → f (left n i) ≢ eating → seen_right p' ≡ false → Writes n i p p' f f'
  saw_right : f' ≡ f → seen_left p ≡ true → f (right n i) ≢ eating → Writes n i p p' f f'
  sets :
      (h : Phase)
      → h ≢ eating
      → f' ≡ update f i h
      → seen_left p' ≡ false
      → seen_right p' ≡ false
      → Writes n i p p' f f'
  eats :
      seen_left p ≡ true
      → seen_right p ≡ true
      → f' ≡ update f i eating
      → seen_left p' ≡ false
      → seen_right p' ≡ false
      → Writes n i p p' f f'

seen-holds : (p : Place) → seen_left p ≡ true → holds p ≡ true
seen-holds starts e = absurd (true≢false (sym e))
seen-holds loops e = absurd (true≢false (sym e))
seen-holds mutex e = absurd (true≢false (sym e))
seen-holds mutex_asleep e = absurd (true≢false (sym e))
seen-holds test_self e = absurd (true≢false (sym e))
seen-holds test_left e = absurd (true≢false (sym e))
seen-holds test_right e = refl
seen-holds takes e = refl
seen-holds posts_self e = absurd (true≢false (sym e))
seen-holds leaves e = absurd (true≢false (sym e))
seen-holds own e = absurd (true≢false (sym e))
seen-holds own_asleep e = absurd (true≢false (sym e))
seen-holds stops e = absurd (true≢false (sym e))
seen-holds stops_asleep e = absurd (true≢false (sym e))
seen-holds puts_down e = absurd (true≢false (sym e))
seen-holds look_left e = absurd (true≢false (sym e))
seen-holds post_left e = absurd (true≢false (sym e))
seen-holds look_right e = absurd (true≢false (sym e))
seen-holds post_right e = absurd (true≢false (sym e))
seen-holds ends e = absurd (true≢false (sym e))

right-holds : (p : Place) → seen_right p ≡ true → holds p ≡ true
right-holds starts e = absurd (true≢false (sym e))
right-holds loops e = absurd (true≢false (sym e))
right-holds mutex e = absurd (true≢false (sym e))
right-holds mutex_asleep e = absurd (true≢false (sym e))
right-holds test_self e = absurd (true≢false (sym e))
right-holds test_left e = absurd (true≢false (sym e))
right-holds test_right e = absurd (true≢false (sym e))
right-holds takes e = refl
right-holds posts_self e = absurd (true≢false (sym e))
right-holds leaves e = absurd (true≢false (sym e))
right-holds own e = absurd (true≢false (sym e))
right-holds own_asleep e = absurd (true≢false (sym e))
right-holds stops e = absurd (true≢false (sym e))
right-holds stops_asleep e = absurd (true≢false (sym e))
right-holds puts_down e = absurd (true≢false (sym e))
right-holds look_left e = absurd (true≢false (sym e))
right-holds post_left e = absurd (true≢false (sym e))
right-holds look_right e = absurd (true≢false (sym e))
right-holds post_right e = absurd (true≢false (sym e))
right-holds ends e = absurd (true≢false (sym e))

module _ (n : ℕ) (two : 2 ≤ n) (f : ℕ → Phase) (at : ℕ → Place) (i : ℕ) (small : i < n) (p' : Place)
    (s : Seats n f at) where
  not_seen :
      (seen : Place → Bool) (k : ℕ)
      → seen p' ≡ false
      → seen (update at i p' k) ≡ true
      → (k ≢ i) × (seen (at k) ≡ true)
  not_seen seen k h =
      at-cases (λ q. seen q ≡ true → (k ≢ i) × (seen (at k) ≡ true)) at i p' k
        (λ e b. absurd (true≢false (sym b ∙ h))) (λ ne b. (ne, b))

  keeps-Seats : seen_left p' ≡ false → seen_right p' ≡ false → Seats n f (update at i p')
  keeps-Seats l r = record {
    left_ok = λ k b. s.left_ok k (not_seen seen_left k l b).1;
    right_ok = λ k b. s.right_ok k (not_seen seen_right k r b).1;
    apart = s.apart;
  }

  seen-Seats :
      f (left n i) ≢ eating
      → (seen_right p' ≡ true → f (right n i) ≢ eating)
      → Seats n f (update at i p')
  seen-Seats l r = record {
    left_ok = λ k.
        at-cases (λ q. seen_left q ≡ true → f (left n k) ≢ eating) at i p' k (λ e b. rw e l)
          (λ ne b. s.left_ok k b);
    right_ok = λ k.
        at-cases (λ q. seen_right q ≡ true → f (right n k) ≢ eating) at i p' k (λ e b. rw e (r b))
          (λ ne b. s.right_ok k b);
    apart = s.apart;
  }

  set_calm : (h : Phase) (k : ℕ) → h ≢ eating → f k ≢ eating → update f i h k ≢ eating
  set_calm h k c d = elim (==-cases k i) [
    | inl e ↦ rw (e, update_self f i h) c
    | inr ne ↦ rw (update_ne f i h k ne) d
  ]

  set_was : (h : Phase) (k : ℕ) → h ≢ eating → update f i h k ≡ eating → f k ≡ eating
  set_was h k c b = elim (==-cases k i) [
    | inl e ↦ absurd (c (sym (ap (update f i h) e ∙ update_self f i h) ∙ b))
    | inr ne ↦ sym (update_ne f i h k ne) ∙ b
  ]

  sets-Seats :
      (h : Phase)
      → h ≢ eating
      → seen_left p' ≡ false
      → seen_right p' ≡ false
      → Seats n (update f i h) (update at i p')
  sets-Seats h c l r = record {
    left_ok = λ k b. set_calm h (left n k) c (s.left_ok k (not_seen seen_left k l b).1);
    right_ok = λ k b. set_calm h (right n k) c (s.right_ok k (not_seen seen_right k r b).1);
    apart = λ k lt b. set_calm h (right n k) c (s.apart k lt (set_was h k c b));
  }

  still_apart :
      (k : ℕ)
      → k < n
      → seen_left (at i) ≡ true
      → f k ≡ eating
      → update f i eating (right n k) ≢ eating
  still_apart k lt sl was = elim (==-cases (right n k) i) [
    | inl e ↦ absurd (s.left_ok i sl (ap f (sym (ap (left n) e) ∙ left-right n k lt) ∙ was))
    | inr ne ↦ rw (update_ne f i eating (right n k) ne) (s.apart k lt was)
  ]

  eats-Seats :
      ((k : ℕ) → holds (at k) ≡ true → k ≡ i)
      → seen_left (at i) ≡ true
      → seen_right (at i) ≡ true
      → seen_left p' ≡ false
      → seen_right p' ≡ false
      → Seats n (update f i eating) (update at i p')
  eats-Seats only sl sr l r = record {
    left_ok =
        λ k b. let w = not_seen seen_left k l b in absurd (w.0 (only k (seen-holds (at k) w.1)));
    right_ok =
        λ k b. let w = not_seen seen_right k r b in absurd (w.0 (only k (right-holds (at k) w.1)));
    apart = λ k lt b. elim (==-cases k i) [
      | inl e ↦ rw (e, update_ne f i eating (right n i) (right-ne n i two small)) (s.right_ok i sr)
      | inr ne ↦ still_apart k lt sl (sym (update_ne f i eating k ne) ∙ b)
    ];
  }

  Writes-Seats :
      (f' : ℕ → Phase)
      → ((k : ℕ) → holds (at k) ≡ true → holds (at i) ≡ true → k ≡ i)
      → Writes n i (at i) p' f f'
      → Seats n f' (update at i p')
  Writes-Seats f' only (keeps e l r) = rw e (keeps-Seats l r)
  Writes-Seats f' only (saw_left e a r) = rw e (seen-Seats a (λ b. absurd (true≢false (sym b ∙ r))))
  Writes-Seats f' only (saw_right e sl a) = rw e (seen-Seats (s.left_ok i sl) (λ _. a))
  Writes-Seats f' only (sets h c e l r) = rw e (sets-Seats h c l r)
  Writes-Seats f' only (eats sl sr e l r) =
      rw e (eats-Seats (λ k b. only k b (seen-holds (at i) sl)) sl sr l r)

Move-Writes :
    {n i : ℕ} {t t' : Table} {p p' : Place} → Move n i t p t' p' → Writes n i p p' t.phase t'.phase
Move-Writes get_hungry = sets hungry (λ e. cc) refl refl refl
Move-Writes (try _) = keeps refl refl refl
Move-Writes (eat _) = keeps refl refl refl
Move-Writes (lock _ _ _) = keeps refl refl refl
Move-Writes (lock_sleep _ _ _ _) = keeps refl refl refl
Move-Writes (lock_wake _) = keeps refl refl refl
Move-Writes (self_hungry _) = keeps refl refl refl
Move-Writes (self_other _) = keeps refl refl refl
Move-Writes (left_free e) = saw_left refl e refl
Move-Writes (left_eats _) = keeps refl refl refl
Move-Writes (right_free e) = saw_right refl refl e
Move-Writes (right_eats _) = keeps refl refl refl
Move-Writes take = eats refl refl refl refl refl
Move-Writes (post_self _ _) = keeps refl refl refl
Move-Writes (unlock _ _) = keeps refl refl refl
Move-Writes (wait _ _ _) = keeps refl refl refl
Move-Writes (wait_sleep _ _ _ _) = keeps refl refl refl
Move-Writes (wait_wake _) = keeps refl refl refl
Move-Writes (stop _ _ _) = keeps refl refl refl
Move-Writes (stop_sleep _ _ _ _) = keeps refl refl refl
Move-Writes (stop_wake _) = keeps refl refl refl
Move-Writes put_down = sets thinking (λ e. cc) refl refl refl
Move-Writes (left_hungry _) = keeps refl refl refl
Move-Writes (left_other _) = keeps refl refl refl
Move-Writes (wake_left _ _) = keeps refl refl refl
Move-Writes (right_hungry _) = keeps refl refl refl
Move-Writes (right_other _) = keeps refl refl refl
Move-Writes (wake_right _ _) = keeps refl refl refl
Move-Writes (done _ _) = keeps refl refl refl

record Keeps (n : ℕ) (t : Table) (at : ℕ → Place) : Type 0 where
  excludes : Excludes t.mutex.value at
  seats : Seats n t.phase at

Step-Keeps :
    (n : ℕ) {t t' : Table} {at : ℕ → Place} {p : Place} (i : ℕ)
    → 2 ≤ n
    → i < n
    → Move n i t (at i) t' p
    → Finds (at i) t.mutex.value
    → Keeps n t at
    → Keeps n t' (update at i p)
Step-Keeps n {t} {t'} {at} {p} i two lt m found k = record {
  excludes =
      Turn-Excludes at i p t.mutex.value t'.mutex.value (Move-Turn m k.excludes.low found)
        k.excludes;
  seats =
      Writes-Seats n two t.phase at i lt p k.seats t'.phase (λ j b c. k.excludes.unique j i b c)
        (Move-Writes m);
}

Reach-Keeps :
    (n : ℕ) {t u : Table} {at : ℕ → Place}
    → 2 ≤ n
    → t.mutex.value ≡ 1
    → ((i : ℕ) → i < n → t.phase i ≡ eating → t.phase (right n i) ≢ eating)
    → (r : Reach n t u at) → NoTheft r
    → Keeps n u at
unfolding NoTheft
Reach-Keeps n two one calm start _ = record {
  excludes = record {
    low = omega arith;
    closed = λ i b. absurd (true≢false (sym b));
    unique = λ i j b c. absurd (true≢false (sym b));
  };
  seats = record {
    left_ok = λ i b. absurd (true≢false (sym b));
    right_ok = λ i b. absurd (true≢false (sym b));
    apart = calm;
  };
}
Reach-Keeps n two one calm (next r (step i lt m)) (found, honest) =
    Step-Keeps n i two lt m found (Reach-Keeps n two one calm r honest)

-- At a table of at least two, where the semaphore of the table starts at 1 and no two neighbours are
-- marked as eating: however the philosophers are interleaved, if each that slept on this semaphore
-- found its value positive when it went on, none eats while the one on the right does.
pub neighbours_apart :
    (n : ℕ) (t u : Table) (at : ℕ → Place) (i : ℕ)
    → 2 ≤ n
    → t.mutex.value ≡ 1
    → ((k : ℕ) → k < n → t.phase k ≡ eating → t.phase (right n k) ≢ eating)
    → (r : Reach n t u at) → NoTheft r
    → i < n
    → u.phase i ≡ eating
    → u.phase (right n i) ≢ eating
neighbours_apart n t u at i two one calm r honest lt eats_i =
    (Reach-Keeps n two one calm r honest).seats.apart i lt eats_i
