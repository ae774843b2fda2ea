-- ===== src/Snakes/Body.antt =====
-- A snake stays in one piece, in its array and with its score.
use tpe2_so.Base.{
  ℕ, zero, suc, ◌+◌, ◌-◌, ◌%◌, ◌^◌, ◌≤◌, ◌<◌, ◌≡◌, ◌⊎◌, inl, inr, refl, ap, ◌∙◌, true, ◌||◌, arith,
  update, update_self, update_ne, ==-cases, lt-cases, lt→ltb, le→ltb,
}
use tpe2_so.Snakes.{
  Coordinates, Player, max_length, shift, follow, add_new_tail, increase_snake, stepped, is_key1,
  is_key2,
}

shift_lem :
    (n : ℕ) (body : ℕ → Coordinates) (i : ℕ)
    → ((0 < i) × (i < n) → shift n body i ≡ body (i - 1))
      × ((i ≡ 0) ⊎ (n ≤ i) → shift n body i ≡ body i)
unfolding shift
shift_lem zero body i = ((λ h. absurd (omega (arith, h))), λ h. refl)
shift_lem (suc zero) body i = ((λ h. absurd (omega (arith, h))), λ h. refl)
shift_lem (suc (suc n)) body i =
    let rest = shift_lem (suc n) (update body (suc n) (body n)) i in
    (
      λ h. elim (==-cases i (suc n)) [
        | inl e ↦ rest.1 (inr (omega arith)) ∙ ground arith
        | inr ne ↦ rest.0 (omega (arith, h)) ∙ ground (arith, h)
      ],
      λ h. rest.1 (ground arith) ∙ ground arith,
    )

abbrev IsWord : Coordinates → Type 0
IsWord c = (c.x < 2 ^ 64) × (c.y < 2 ^ 64)

-- Numbers that differ by one, as words.
abbrev OneApart : ℕ → ℕ → Type 0
OneApart m n = (m ≡ (n + 1) % 2 ^ 64) ⊎ (n ≡ (m + 1) % 2 ^ 64)

-- Neighbouring cells of the board.
abbrev Near : Coordinates → Coordinates → Type 0
Near a b = ((a.x ≡ b.x) × OneApart a.y b.y) ⊎ ((a.y ≡ b.y) × OneApart a.x b.x)

-- A snake: its cells lie in the array and each neighbours the next; the head is the first; it has
-- grown by one cell for each point.
pub record IsSnake (p : Player) : Type 0 where
  pub nonempty : 0 < p.length
  pub fits : p.length ≤ max_length
  pub score : p.length ≡ p.points + 15
  pub at_head : p.body 0 ≡ p.head
  pub words : (i : ℕ) → i < p.length → IsWord (p.body i)
  pub near : (i : ℕ) → suc i < p.length → Near (p.body i) (p.body (suc i))

-- The cells after a step of the head.
pub follow-head : (p : Player) → (follow p).body 0 ≡ p.head
unfolding follow
follow-head p = update_self (shift p.length p.body) 0 p.head

pub follow-next : (p : Player) (i : ℕ) → suc i < p.length → (follow p).body (suc i) ≡ p.body i
unfolding follow
follow-next p i h =
    let same : suc i - 1 ≡ i = omega arith in
    update_ne (shift p.length p.body) 0 p.head (suc i) (omega arith)
    ∙ (shift_lem p.length p.body (suc i)).0 (omega arith)
    ∙ ap p.body same

stepped-Near :
    (key : ℕ) (c : Coordinates) → IsWord c → IsWord (stepped key c) × Near (stepped key c) c
unfolding stepped
stepped-Near key c w = ground arith

add_new_tail-Near :
    (p : Player)
    → IsWord (p.body (p.length - 1))
    → (is_key1 p.direction || is_key2 p.direction) ≡ true
    → IsWord (add_new_tail p) × Near (p.body (p.length - 1)) (add_new_tail p)
unfolding add_new_tail
add_new_tail-Near p w key = ground arith

-- A snake whose head has moved on to a neighbouring cell.
abbrev pub moved : ℕ → Coordinates → Player → Player
moved key c p = record p { head = c; direction = key }

follow-words :
    (key : ℕ) (c : Coordinates) (p : Player)
    → IsSnake p
    → IsWord c
    → (i : ℕ) → i < p.length
    → IsWord ((follow (moved key c p)).body i)
follow-words key c p s w zero h = rw (follow-head (moved key c p)) w
follow-words key c p s w (suc i) h = rw (follow-next (moved key c p) i h) (s.words i (omega arith))

follow-Near :
    (key : ℕ) (c : Coordinates) (p : Player)
    → IsSnake p
    → Near c p.head
    → (i : ℕ) → suc i < p.length
    → Near ((follow (moved key c p)).body i) ((follow (moved key c p)).body (suc i))
follow-Near key c p s n zero h =
    rw (follow-head (moved key c p), follow-next (moved key c p) 0 h, s.at_head) n
follow-Near key c p s n (suc i) h =
    rw (follow-next (moved key c p) i (omega arith), follow-next (moved key c p) (suc i) h)
      (s.near i (omega arith))

pub follow-IsSnake :
    (key : ℕ) (p : Player) → IsSnake p → IsSnake (follow (moved key (stepped key p.head) p))
unfolding follow
follow-IsSnake key p s =
    let q : Player = moved key (stepped key p.head) p in
    let head_word : IsWord p.head = rw (← s.at_head) (s.words 0 s.nonempty) in
    let step = stepped-Near key p.head head_word in
    record {
      nonempty = s.nonempty;
      fits = s.fits;
      score = s.score;
      at_head = follow-head q;
      words = follow-words key (stepped key p.head) p s step.0;
      near = follow-Near key (stepped key p.head) p s step.1;
    }

abbrev pub Steers : ℕ → Type 0
Steers key = (is_key1 key || is_key2 key) ≡ true

pub increase_snake-IsSnake :
    (p : Player) → IsSnake p → Steers p.direction → IsSnake (increase_snake p)
unfolding increase_snake
increase_snake-IsSnake p s key = elim (lt-cases p.length max_length) [
  | inr full ↦ rw (le→ltb p.length max_length full) s
  | inl room ↦
      let tail = add_new_tail-Near p (s.words (p.length - 1) (omega (arith, s.nonempty))) key in
      let new = add_new_tail p in
      let body : ℕ → Coordinates = update p.body p.length new in
      rw (lt→ltb p.length max_length room) (record {
        nonempty = omega arith;
        fits = omega arith;
        score = omega (arith, s.score);
        at_head = update_ne p.body p.length new 0 (omega (arith, s.nonempty)) ∙ s.at_head;
        words = λ i h. elim (==-cases i p.length) [
          | inl e ↦ rw (e, update_self p.body p.length new) tail.0
          | inr ne ↦ rw (update_ne p.body p.length new i ne) (s.words i (omega arith))
        ];
        near = λ i h. elim (==-cases (suc i) p.length) [
          | inl e ↦
              let last : i ≡ p.length - 1 = omega arith in
              rw
                (
                  e,
                  update_self p.body p.length new,
                  update_ne p.body p.length new i (omega arith),
                  last,
                )
                tail.1
          | inr ne ↦
              rw
                (
                  update_ne p.body p.length new (suc i) ne,
                  update_ne p.body p.length new i (omega arith),
                )
                (s.near i (omega arith))
        ];
      })
]
