-- ===== src/Snakes/Moves.antt =====
-- The rule by which a key moves a snake, and the code's helpers against it.
use tpe2_so.Base.{
  ℕ, suc, ◌+◌, ◌-◌, ◌≤◌, ◌<◌, ◌≡◌, ◌≢◌, ◌⊎◌, inl, inr, refl, ◌∙◌, Bool, true, false, ◌&&◌, arith,
  update, update_self, update_ne, lt-cases, lt→ltb, le→ltb, add64, sub64,
}
use tpe2_so.Snakes.{
  Coordinates, Player, max_length, same, stepped, opposite, follow, add_new_tail, increase_snake,
  is_key1, is_key2,
}
use tpe2_so.Snakes.Body.{Steers, moved, follow-head, follow-next}

abbrev pub Key1 : ℕ → Type 0
Key1 key = (key ≡ b'w') ⊎ ((key ≡ b'a') ⊎ ((key ≡ b's') ⊎ (key ≡ b'd')))

abbrev pub Key2 : ℕ → Type 0
Key2 key = (key ≡ b'U') ⊎ ((key ≡ b'L') ⊎ ((key ≡ b'D') ⊎ (key ≡ b'R')))

-- The direction that a key would turn back.
abbrev pub Reverse : ℕ → ℕ → Type 0
Reverse key d =
    ((key ≡ b'w') × (d ≡ b's'))
    ⊎ (((key ≡ b's') × (d ≡ b'w'))
        ⊎ (((key ≡ b'a') × (d ≡ b'd'))
            ⊎ (((key ≡ b'd') × (d ≡ b'a'))
                ⊎ (((key ≡ b'U') × (d ≡ b'D'))
                    ⊎ (((key ≡ b'D') × (d ≡ b'U'))
                        ⊎ (((key ≡ b'L') × (d ≡ b'R')) ⊎ ((key ≡ b'R') × (d ≡ b'L'))))))))

-- The cell that a key leads to. Row 0 is the upper one.
pub data Ahead (key : ℕ) (c : Coordinates) : Coordinates → Type 0 where
  up : (key ≡ b'w') ⊎ (key ≡ b'U') → Ahead key c (record { x = c.x; y = sub64 c.y 1 })
  left : (key ≡ b'a') ⊎ (key ≡ b'L') → Ahead key c (record { x = sub64 c.x 1; y = c.y })
  down : (key ≡ b's') ⊎ (key ≡ b'D') → Ahead key c (record { x = c.x; y = add64 c.y 1 })
  right : (key ≡ b'd') ⊎ (key ≡ b'R') → Ahead key c (record { x = add64 c.x 1; y = c.y })

-- The cell behind a cell, for a snake that goes as the key says.
pub data Behind (key : ℕ) (c : Coordinates) : Coordinates → Type 0 where
  up : (key ≡ b'w') ⊎ (key ≡ b'U') → Behind key c (record { x = c.x; y = add64 c.y 1 })
  left : (key ≡ b'a') ⊎ (key ≡ b'L') → Behind key c (record { x = add64 c.x 1; y = c.y })
  down : (key ≡ b's') ⊎ (key ≡ b'D') → Behind key c (record { x = c.x; y = sub64 c.y 1 })
  right : (key ≡ b'd') ⊎ (key ≡ b'R') → Behind key c (record { x = sub64 c.x 1; y = c.y })

-- The head goes on by the key, and every cell to the place of the one before it.
pub record Follows (key : ℕ) (p q : Player) : Type 0 where
  pub head : Ahead key p.head q.head
  pub first : q.body 0 ≡ q.head
  pub others : (i : ℕ) → suc i < p.length → q.body (suc i) ≡ p.body i
  pub direction : q.direction ≡ key
  pub state : q.state ≡ p.state

pub data Moved (key : ℕ) (food : Coordinates) (p : Player) : Player → Type 0 where
  stays : Reverse key p.direction → Moved key food p p
  steps :
      {q : Player}
      → ¬ Reverse key p.direction
      → Follows key p q
      → q.head ≢ food
      → q.length ≡ p.length
      → q.points ≡ p.points
      → Moved key food p q
  grows :
      {q : Player}
      → ¬ Reverse key p.direction
      → Follows key p q
      → q.head ≡ food
      → p.length < 35
      → q.length ≡ p.length + 1
      → q.points ≡ p.points + 1
      → Behind key (q.body (p.length - 1)) (q.body p.length)
      → Moved key food p q
  eats_full :
      {q : Player}
      → ¬ Reverse key p.direction
      → Follows key p q
      → q.head ≡ food
      → 35 ≤ p.length
      → q.length ≡ p.length
      → q.points ≡ p.points
      → Moved key food p q

pub is_key1-Key1 : (key : ℕ) → is_key1 key ≡ true → Key1 key
is_key1-Key1 key h = ground arith

pub is_key2-Key2 : (key : ℕ) → is_key2 key ≡ true → Key2 key
is_key2-Key2 key h = ground arith

pub is_key1-false : (key : ℕ) → Key1 key → is_key1 key ≡ false → ⊥
is_key1-false key k h = ground arith

pub is_key2-false :
    (key : ℕ) (two : Bool) → Key2 key → two ≡ true → (two && is_key2 key) ≡ false → ⊥
is_key2-false key two k both h = ground arith

Steers-cases : (key : ℕ) → Steers key → Key1 key ⊎ Key2 key
Steers-cases key k = ground arith

pub Reverse-opposite : (key d : ℕ) → Steers key → d ≡ opposite key → Reverse key d
Reverse-opposite key d k e = ground (arith, Steers-cases key k)

pub opposite-Reverse : (key d : ℕ) → Reverse key d → d ≡ opposite key
opposite-Reverse key d r = ground arith

pub same_food-true : (a b : Coordinates) → same a b ≡ true → a ≡ b
same_food-true a b h = ground arith

pub same_food-false : (a b : Coordinates) → same a b ≡ false → a ≢ b
same_food-false a b h e = ground arith

stepped-Ahead : (key : ℕ) (c : Coordinates) → Key1 key ⊎ Key2 key → Ahead key c (stepped key c)
unfolding stepped
stepped-Ahead key c (inl (inl e)) = rw e (Ahead.up (inl refl))
stepped-Ahead key c (inl (inr (inl e))) = rw e (Ahead.left (inl refl))
stepped-Ahead key c (inl (inr (inr (inl e)))) = rw e (Ahead.down (inl refl))
stepped-Ahead key c (inl (inr (inr (inr e)))) = rw e (Ahead.right (inl refl))
stepped-Ahead key c (inr (inl e)) = rw e (Ahead.up (inr refl))
stepped-Ahead key c (inr (inr (inl e))) = rw e (Ahead.left (inr refl))
stepped-Ahead key c (inr (inr (inr (inl e)))) = rw e (Ahead.down (inr refl))
stepped-Ahead key c (inr (inr (inr (inr e)))) = rw e (Ahead.right (inr refl))

add_new_tail-Behind :
    (p : Player)
    → Key1 p.direction ⊎ Key2 p.direction
    → Behind p.direction (p.body (p.length - 1)) (add_new_tail p)
unfolding add_new_tail
add_new_tail-Behind p (inl (inl e)) = rw e (Behind.up (inl refl))
add_new_tail-Behind p (inl (inr (inl e))) = rw e (Behind.left (inl refl))
add_new_tail-Behind p (inl (inr (inr (inl e)))) = rw e (Behind.down (inl refl))
add_new_tail-Behind p (inl (inr (inr (inr e)))) = rw e (Behind.right (inl refl))
add_new_tail-Behind p (inr (inl e)) = rw e (Behind.up (inr refl))
add_new_tail-Behind p (inr (inr (inl e))) = rw e (Behind.left (inr refl))
add_new_tail-Behind p (inr (inr (inr (inl e)))) = rw e (Behind.down (inr refl))
add_new_tail-Behind p (inr (inr (inr (inr e)))) = rw e (Behind.right (inr refl))

abbrev on : ℕ → Player → Player
on key p = follow (moved key (stepped key p.head) p)

pub follow-Follows : (key : ℕ) (p : Player) → Steers key → Follows key p (on key p)
unfolding follow
follow-Follows key p k = record {
  head = stepped-Ahead key p.head (Steers-cases key k);
  first = follow-head (moved key (stepped key p.head) p);
  others = λ i h. follow-next (moved key (stepped key p.head) p) i h;
  direction = refl;
  state = refl;
}

-- The snake with a cell more.
abbrev longer : Player → Player
longer p = record p {
  body = update p.body p.length (add_new_tail p);
  length = p.length + 1;
  points = p.points + 1;
}

longer-Follows :
    (key : ℕ) (p q : Player)
    → 0 < p.length
    → q.length ≡ p.length
    → Follows key p q
    → Follows key p (longer q)
longer-Follows key p q some_cell size f = record {
  head = f.head;
  first = update_ne q.body q.length (add_new_tail q) 0 (omega arith) ∙ f.first;
  others = λ i h. update_ne q.body q.length (add_new_tail q) (suc i) (omega arith) ∙ f.others i h;
  direction = f.direction;
  state = f.state;
}

longer-Behind :
    (q : Player)
    → 0 < q.length
    → Key1 q.direction ⊎ Key2 q.direction
    → Behind q.direction ((longer q).body (q.length - 1)) ((longer q).body q.length)
longer-Behind q some_cell k =
    rw
      (
        update_self q.body q.length (add_new_tail q),
        update_ne q.body q.length (add_new_tail q) (q.length - 1) (omega arith),
      )
      (add_new_tail-Behind q k)

pub increase_snake-Moved :
    (key : ℕ) (food : Coordinates) (p : Player)
    → Steers key
    → 0 < p.length
    → ¬ Reverse key p.direction
    → stepped key p.head ≡ food
    → Moved key food p (increase_snake (on key p))
unfolding increase_snake follow
increase_snake-Moved key food p k some_cell ahead is_food = elim (lt-cases p.length max_length) [
  | inl room ↦ rw (lt→ltb p.length max_length room) (
      grows ahead (longer-Follows key p (on key p) some_cell refl (follow-Follows key p k)) is_food
        room refl refl (longer-Behind (on key p) some_cell (Steers-cases key k)))
  | inr full ↦
      rw (le→ltb p.length max_length full)
        (eats_full ahead (follow-Follows key p k) is_food full refl refl)
]
