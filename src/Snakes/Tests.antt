-- ===== src/Snakes/Tests.antt =====
-- The game at a concrete position.
use mathlib.Core.Bool.{true≢false}
use tpe2_so.Base.{sym, ℕ, ◌-◌, ◌≡◌, ◌⊎◌, refl, true, false, none, some, List, [], ◌∷◌, arith, All}
use tpe2_so.Snakes.{
  Coordinates, Player, Game, candidate, is_bad, generate, set_food, update_position, turn, steer,
  advance, follow, stepped,
}
use tpe2_so.Snakes.Body.{IsSnake, moved}
use tpe2_so.Snakes.Food.{IsGood, set_food-IsGood}
use tpe2_so.Snakes.Rules.{Turned, update_position-IsSnake}

-- A new snake in the middle of the board, and no second player.
abbrev snake : Player
snake = record {
  direction = b'd';
  state = true;
  length = 15;
  points = 0;
  head = record { x = 60; y = 40 };
  body = λ i. record { x = 60 - i; y = 40 };
}

snake-IsSnake : IsSnake snake
snake-IsSnake = record {
  nonempty = omega arith;
  fits = omega arith;
  score = refl;
  at_head = refl;
  words = λ i h. (omega arith, omega arith);
  near = λ i h. ground arith;
}

abbrev game : Game
game = record {
  player1 = snake;
  player2 = record snake { state = false; length = 0 };
  food = record { x = 20; y = 50 };
}

abbrev after : Game
after = record game { player1 = follow (moved b's' (record { x = 60; y = 41 }) snake) }

steps_down : update_position 1024 768 false b's' game [] ≡ some (after, [])
unfolding update_position turn steer advance follow stepped
steps_down = refl

update_position-IsSnake_example :
    (IsSnake snake → IsSnake after.player1)
    × (IsSnake game.player2 → IsSnake after.player2)
    × Turned b's' false game after
update_position-IsSnake_example =
    update_position-IsSnake 1024 768 b's' false game after [] [] (omega arith) (omega arith)
      (omega arith) (λ two. absurd (true≢false (sym two))) steps_down

set_food-IsGood_example :
    ((t : Game) × (left : List ℕ) × (set_food 1024 768 game (70 ∷ 3 ∷ []) ≡ some (t, left))
      × IsGood 1024 768 game t.food
      × (t.player1 ≡ game.player1)
      × (t.player2 ≡ game.player2))
    ⊎ ((set_food 1024 768 game (70 ∷ 3 ∷ []) ≡ none)
        × (All (λ seed. is_bad 1024 768 game (candidate 1024 768 seed) ≡ true) (70 ∷ 3 ∷ [])
            ⊎ ((c : Coordinates) × (generate 1024 768 game (70 ∷ 3 ∷ []) ≡ some (c, [])))))
set_food-IsGood_example = set_food-IsGood 1024 768 game (70 ∷ 3 ∷ []) (omega arith) (omega arith)
