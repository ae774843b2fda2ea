-- ===== src/Snakes/Start.antt =====
-- `setPlayers` in Userland/SampleCodeModule/snakes.c: the snakes at the start of a game.
use tpe2_so.Base.{
  ℕ, zero, suc, ◌+◌, ◌-◌, ◌*◌, ◌/◌, ◌%◌, ◌^◌, ◌≤◌, ◌<◌, ◌≡◌, ◌⊎◌, refl, ap, ◌∙◌, inl, inr, Bool,
  true, arith, if◌then◌else◌, update, update_self, update_ne, add64, ==-cases,
}
use tpe2_so.Snakes.{Coordinates, Player, Game, size}
use tpe2_so.Snakes.Body.{IsSnake}

-- The factor -1 of a coordinate, as a word.
abbrev minus_one : ℕ
minus_one = 2 ^ 64 - 1

-- The cell that `setSnake` writes at index `i`.
abbrev start_cell : ℕ → Coordinates → ℕ → Coordinates
start_cell n head i = record { x = add64 head.x ((n * i) % 2 ^ 64); y = head.y }

-- The loop of `setSnake`, with the turns that are left.
set_snake : ℕ → ℕ → ℕ → Coordinates → (ℕ → Coordinates) → ℕ → Coordinates
set_snake zero i n head body = body
set_snake (suc turns) i n head body =
    set_snake turns (i + 1) n head (update body i (start_cell n head i))

-- A player at the start, whose cells go on from the head by `n`.
start_player : ℕ → ℕ → Coordinates → Player → Player
start_player direction n head p = record {
  direction = direction;
  state = true;
  length = 15;
  points = 0;
  head = head;
  body = set_snake 15 0 n head p.body;
}

pub set_players : Bool → ℕ → ℕ → Game → Game
set_players two width height g =
    let y : ℕ = height / 2 / size in
    let one : Player =
      start_player b'd' minus_one (record { x = width / 4 / size; y = y }) g.player1 in
    let other : Player =
      start_player b'L' 1 (record { x = (width - width / 4) / size; y = y }) g.player2 in
    record g { player1 = one; player2 = if two then other else g.player2 }

set_snake-start_cell :
    (turns i n : ℕ) (head : Coordinates) (body : ℕ → Coordinates) (j : ℕ)
    → (i ≤ j → j < i + turns → set_snake turns i n head body j ≡ start_cell n head j)
      × (j < i → set_snake turns i n head body j ≡ body j)
unfolding set_snake
set_snake-start_cell zero i n head body j = ((λ l h. absurd (omega arith)), λ h. refl)
set_snake-start_cell (suc turns) i n head body j =
    let body' : ℕ → Coordinates = update body i (start_cell n head i) in
    let rest = set_snake-start_cell turns (i + 1) n head body' j in
    (
      λ l h. elim (==-cases j i) [
        | inl e ↦ rest.1 (omega arith) ∙ rw e (update_self body i (start_cell n head i))
        | inr ne ↦ rest.0 (omega arith) (omega arith)
      ],
      λ h. rest.1 (omega arith) ∙ update_ne body i (start_cell n head i) j (omega arith),
    )

start_player-IsSnake :
    (direction n : ℕ) (head : Coordinates) (p : Player)
    → (n ≡ 1) ⊎ (n ≡ minus_one)
    → head.x < 2 ^ 64
    → head.y < 2 ^ 64
    → IsSnake (start_player direction n head p)
unfolding start_player
start_player-IsSnake direction n head p dir hx hy =
    let cell : (i : ℕ) → i < 15 → set_snake 15 0 n head p.body i ≡ start_cell n head i =
      λ i h. (set_snake-start_cell 15 0 n head p.body i).0 (omega arith) (omega arith) in
    let start_head : start_cell n head 0 ≡ head =
      ap (λ (x : ℕ). record head { x = x }) (omega (arith, hx)) in
    record {
      nonempty = omega arith;
      fits = omega arith;
      score = refl;
      at_head = cell 0 (omega arith) ∙ start_head;
      words = λ i h. rw (cell i h) (omega arith, hy);
      near = λ i h.
          rw (cell i (omega arith), cell (suc i) h)
            (elim dir [
              | inl e ↦ rw e (inr (refl, inr (omega arith)))
              | inr e ↦ rw e (inr (refl, inl (omega arith)))
            ]);
    }

-- On a screen of less than 2 ^ 16 pixels each way, `setPlayers` makes the first player a snake,
-- whatever number of players is chosen, and with two players the second one too.
set_players-IsSnake :
    (two : Bool) (width height : ℕ) (g : Game)
    → width < 2 ^ 16
    → height < 2 ^ 16
    → IsSnake (set_players two width height g).player1
      × IsSnake (set_players true width height g).player2
unfolding set_players
set_players-IsSnake two width height g hw hh = (
  start_player-IsSnake b'd' minus_one _ g.player1 (inr refl) (omega arith) (omega arith),
  start_player-IsSnake b'L' 1 _ g.player2 (inl refl) (omega arith) (omega arith),
)
