-- ===== src/Snakes/Rules.antt =====
-- A key moves one snake, by the rule of Snakes/Moves, and keeps it in one piece.
use tpe2_so.Base.{
  ℕ, ◌^◌, ◌<◌, ◌≡◌, ◌≢◌, ◌⊎◌, inl, inr, refl, Bool, true, false, ◌&&◌, none, some, List, arith,
  ==-cases, ==_refl, ne→==, Bool-cases,
}
use tpe2_so.Snakes.{
  Coordinates, Player, Game, same, stepped, opposite, steer, follow, increase_snake, is_key1,
  is_key2, set_food, put1, put2, advance, turn, update_position,
}
use tpe2_so.Snakes.Body.{IsSnake, Steers, moved, follow-IsSnake, increase_snake-IsSnake}
use tpe2_so.Snakes.Moves.{
  Key1, Key2, Moved, stays, steps, Reverse-opposite, opposite-Reverse, follow-Follows,
  increase_snake-Moved, same_food-true, same_food-false, is_key1-Key1, is_key2-Key2, is_key1-false,
  is_key2-false,
}
use tpe2_so.Snakes.Food.{set_food-IsGood}

-- A successful `setFood` keeps the players.
set_food-players :
    (width height : ℕ) (g t : Game) (ticks left : List ℕ)
    → width < 2 ^ 16
    → height < 2 ^ 16
    → set_food width height g ticks ≡ some (t, left)
    → (t.player1 ≡ g.player1) × (t.player2 ≡ g.player2)
set_food-players width height g t ticks left hw hh e =
    elim (set_food-IsGood width height g ticks hw hh) [
      | inr (e', bad) ↦ absurd (cc)
      | inl (t', left', e', good, p1, p2) ↦ let same : t' ≡ t = cc in rw (← same) (p1, p2)
    ]

-- How the code comes by the player that a key has steered; `ate` is the test on the food.
data Came (key : ℕ) (food : Coordinates) (p : Player) : Player → Type 0 where
  stayed : p.direction ≡ opposite key → Came key food p p
  stepped_on :
      p.direction ≢ opposite key
      → same (stepped key p.head) food ≡ false
      → Came key food p (follow (moved key (stepped key p.head) p))
  ate :
      p.direction ≢ opposite key
      → same (stepped key p.head) food ≡ true
      → Came key food p (increase_snake (follow (moved key (stepped key p.head) p)))

Came-IsSnake :
    {key : ℕ} {food : Coordinates} {p q : Player}
    → Steers key
    → IsSnake p
    → Came key food p q
    → IsSnake q
unfolding follow
Came-IsSnake k s (stayed e) = s
Came-IsSnake {key} {p} k s (stepped_on e _) = follow-IsSnake key p s
Came-IsSnake {key} {p} k s (ate e _) = increase_snake-IsSnake _ (follow-IsSnake key p s) k

Came-Moved :
    {key : ℕ} {food : Coordinates} {p q : Player}
    → Steers key
    → 0 < p.length
    → Came key food p q
    → Moved key food p q
unfolding follow
Came-Moved {key} {p} k some_cell (stayed e) = stays (Reverse-opposite key p.direction k e)
Came-Moved {key} {food} {p} k some_cell (stepped_on e not_food) =
    steps (λ r. e (opposite-Reverse key p.direction r)) (follow-Follows key p k)
      (λ f. same_food-false (stepped key p.head) food not_food f) refl refl
Came-Moved {key} {food} {p} k some_cell (ate e is_food) =
    increase_snake-Moved key food p k some_cell (λ r. e (opposite-Reverse key p.direction r))
      (same_food-true (stepped key p.head) food is_food)

steer_back : (key : ℕ) (p : Player) → p.direction ≡ opposite key → steer key p ≡ none
unfolding steer
steer_back key p e = rw (e, ==_refl (opposite key)) refl

steer_ahead :
    (key : ℕ) (p : Player)
    → p.direction ≢ opposite key
    → steer key p ≡ some (moved key (stepped key p.head) p)
unfolding steer
steer_ahead key p ne = rw (ne→== p.direction (opposite key) ne) refl

-- The two players after a step of one, which `put` writes back.
abbrev Same : Game → Game → Type 0
Same t u = (t.player1 ≡ u.player1) × (t.player2 ≡ u.player2)

module _ (width height : ℕ) (ticks left : List ℕ) (hw : width < 2 ^ 16) (hh : height < 2 ^ 16) where
  advance_cases :
      (put : Player → Game → Game) (p : Player) (g t : Game)
      → advance width height put p g ticks ≡ some (t, left)
      → ((same p.head g.food ≡ false) × Same t (put (follow p) g))
        ⊎ ((same p.head g.food ≡ true) × Same t (put (increase_snake (follow p)) g))
  unfolding advance follow
  advance_cases put p g t e = elim (Bool-cases (same p.head g.food)) [
    | inl eaten ↦ inr (
      eaten,
      set_food-players width height (put (increase_snake (follow p)) g) t ticks left hw hh
          (rw eaten at e),
    )
    | inr not_eaten ↦ let e' = rw not_eaten at e in inl (not_eaten, (cc, cc))
  ]

  turn_cases :
      (key : ℕ) (put : Player → Game → Game) (p : Player) (g t : Game)
      → Same g (put p g)
      → turn width height key p put g ticks ≡ some (t, left)
      → (q : Player) × Came key g.food p q × Same t (put q g)
  unfolding turn
  turn_cases key put p g t same_p e = elim (==-cases p.direction (opposite key)) [
    | inl back ↦
        let test : steer key p ≡ none = steer_back key p back in
        let e' = rw (test, turn) at e in
        let t_is : g ≡ t = cc in (p, stayed back, rw (← t_is) same_p)
    | inr ahead ↦
        let test : steer key p ≡ some (moved key (stepped key p.head) p) =
          steer_ahead key p ahead in
        let e' = rw (test, turn) at e in
        elim (advance_cases put (moved key (stepped key p.head) p) g t e') [
          | inl (f, s) ↦ (follow (moved key (stepped key p.head) p), stepped_on ahead f, s)
          | inr (f, s) ↦
              (increase_snake (follow (moved key (stepped key p.head) p)), ate ahead f, s)
        ]
  ]

-- Which player a key moves: the first by `w a s d`, the second by `U L D R` where two play.
pub data Turned (key : ℕ) (two : Bool) (g t : Game) : Type 0 where
  first :
      Key1 key → Moved key g.food g.player1 t.player1 → t.player2 ≡ g.player2 → Turned key two g t
  second :
      Key2 key
      → two ≡ true
      → Moved key g.food g.player2 t.player2
      → t.player1 ≡ g.player1
      → Turned key two g t
  nobody :
      ¬ Key1 key
      → ¬ (Key2 key × (two ≡ true))
      → t.player1 ≡ g.player1
      → t.player2 ≡ g.player2
      → Turned key two g t

-- On a board of less than 2 ^ 16 pixels each way, where the players in the game have a cell each and
-- `updatePosition` comes to an end: a player that is a snake, in one piece, within its array and with a
-- cell for each point, still is one. A key `w a s d` moves the first player only, a key `U L D R` the
-- second only, where two play; any other key moves nobody. The player that is moved stays where it
-- would turn back on itself; else its head goes one cell on, every cell follows the one before it, and
-- it gets one cell more, behind its last, and one point, exactly where it reaches the food with less
-- than 35 cells.
pub update_position-IsSnake :
    (width height key : ℕ) (two : Bool) (g t : Game) (ticks left : List ℕ)
    → width < 2 ^ 16
    → height < 2 ^ 16
    → 0 < g.player1.length
    → (two ≡ true → 0 < g.player2.length)
    → update_position width height two key g ticks ≡ some (t, left)
    → (IsSnake g.player1 → IsSnake t.player1)
      × (IsSnake g.player2 → IsSnake t.player2)
      × Turned key two g t
unfolding update_position
update_position-IsSnake width height key two g t ticks left hw hh cell1 cell2 e =
    elim (Bool-cases (is_key1 key)) [
      | inl one ↦
          let (q, m, s) =
            turn_cases width height ticks left hw hh key put1 g.player1 g t (refl, refl)
              (rw one at e) in
          let k : Steers key = rw one refl in
          (
            (λ snake. rw s.0 (Came-IsSnake k snake m)),
            (λ snake. rw s.1 snake),
            first (is_key1-Key1 key one) (rw s.0 (Came-Moved k cell1 m)) s.1,
          )
      | inr not_one ↦ elim (Bool-cases (two && is_key2 key)) [
        | inl other ↦
            let (q, m, s) =
              turn_cases width height ticks left hw hh key put2 g.player2 g t (refl, refl)
                (rw (not_one, other) at e) in
            let k : Steers key = ground arith in
            let both : two ≡ true = ground arith in
            (
              (λ snake. rw s.0 snake),
              (λ snake. rw s.1 (Came-IsSnake k snake m)),
              second (is_key2-Key2 key (ground arith)) both (rw s.1 (Came-Moved k (cell2 both) m))
                  s.0,
            )
        | inr no_key ↦
            let e' = rw (not_one, no_key) at e in
            let t_is : g ≡ t = cc in
            (
              (λ snake. rw (← t_is) snake),
              (λ snake. rw (← t_is) snake),
              nobody (λ k. is_key1-false key k not_one) (λ k. is_key2-false key two k.0 k.1 no_key)
                  (rw t_is refl) (rw t_is refl),
            )
      ]
    ]
