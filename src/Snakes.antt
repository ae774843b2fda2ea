-- ===== src/Snakes.antt =====
-- Userland/SampleCodeModule/snakes.c: the game. What it draws, prints and sounds is left out. The
-- values of `sys_getTicks` come in a list, one for each call.
pub mod Body
pub mod Food
pub mod Moves
pub mod Rules
pub mod Start
mod Tests
use tpe2_so.Base.{
  ℕ, zero, suc, ◌+◌, ◌-◌, ◌*◌, ◌/◌, ◌%◌, ◌^◌, Bool, true, false, not, ◌&&◌, ◌||◌, Option, none,
  some, List, [], ◌∷◌, ltb, leb, ◌==◌, if◌then◌else◌, update, add64, sub64, ◌>>=◌,
}

abbrev pub size : ℕ
size = 8

abbrev pub max_length : ℕ
max_length = 35

-- `TCoordinates`.
pub record Coordinates : Type 0 where
  pub x : ℕ
  pub y : ℕ

-- `Player`.
pub record Player : Type 0 where
  pub direction : ℕ
  pub state : Bool
  pub length : ℕ
  pub points : ℕ
  pub head : Coordinates
  pub body : ℕ → Coordinates

-- The three global variables.
pub record Game : Type 0 where
  pub player1 : Player
  pub player2 : Player
  pub food : Coordinates

abbrev pub same : Coordinates → Coordinates → Bool
same a b = a.x == b.x && a.y == b.y

-- The loop of `checkInSnake` from index `i` on; it has at most as many turns as there are cells.
pub check_from : ℕ → ℕ → Player → Player → Coordinates → Bool
check_from zero i p q food = false
check_from (suc turns) i p q food =
    let rest = check_from turns (i + 1) p q food in
    if not (ltb i p.length || ltb i q.length)
    then false
    else if ltb i p.length && same (p.body i) food
    then true
    else if ltb i q.length && same (q.body i) food
    then true
    else rest

pub check_in_snake : Game → Coordinates → Bool
check_in_snake g food = check_from (g.player1.length + g.player2.length) 0 g.player1 g.player2 food

-- The position that `generateRandomPosition` makes of a tick.
pub candidate : ℕ → ℕ → ℕ → Coordinates
candidate width height seed =
    let x = seed % (width / size) in
    let y = seed % (height / size) in
    record { x = if leb x 10 then x + 10 else x; y = if leb y 30 then y + 30 else y }

-- The test of its loop: the position is no good.
pub is_bad : ℕ → ℕ → Game → Coordinates → Bool
is_bad width height g c = check_in_snake g c || (leb (height / size) c.y || leb (width / size) c.x)

-- `generateRandomPosition`, with the ticks that are left; `none` is still trying.
pub generate : ℕ → ℕ → Game → List ℕ → Option (Coordinates × List ℕ)
generate width height g [] = none
generate width height g (seed ∷ ticks) =
    let c = candidate width height seed in
    let rest = generate width height g ticks in
    if is_bad width height g c then rest else some (c, ticks)

-- `setFood`: the colour takes one more tick.
pub set_food : ℕ → ℕ → Game → List ℕ → Option (Game × List ℕ)
set_food width height g ticks = do
  (c, left) ← generate (width % 2 ^ 16) (height % 2 ^ 16) g ticks
  elim left [ [] ↦ none | color ∷ others ↦ some (record g { food = c }, others) ]

pub out_of_borders : Player → ℕ → ℕ → Bool
out_of_borders p width height =
    ltb p.head.x 1 || (leb (width + 1) p.head.x || (ltb p.head.y 11 || leb (height + 1) p.head.y))

-- The loop of `checkCollision`, over the cells from `i` on, of which `turns` are left.
pub hits_from : ℕ → ℕ → Coordinates → Player → Bool
hits_from zero i head other = false
hits_from (suc turns) i head other =
    let rest = hits_from turns (i + 1) head other in if same head (other.body i) then true else rest

pub check_collision : Player → Player → Bool
check_collision p other =
    if not other.state then false else hits_from (other.length - 1) 1 p.head other

abbrev pub head_on : Game → Bool
head_on g = g.player1.state && (g.player2.state && same g.player1.head g.player2.head)

-- `collided`, on copies of the players: the game and whether there was a collision.
pub collided : Game → Player → Player → Game × Bool
collided g p other =
    if head_on g
    then (
      record g {
        player1 = record g.player1 { state = false };
        player2 = record g.player2 { state = false };
      },
      true,
    )
    else (g, check_collision p p || check_collision p other)

-- `addNewTail`: the cell behind the last one, as the head is going.
pub add_new_tail : Player → Coordinates
add_new_tail p =
    let c : Coordinates = p.body (p.length - 1) in
    let d : ℕ = p.direction in
    if d == b'w' || d == b'U'
    then record c { y = add64 c.y 1 }
    else if d == b'a' || d == b'L'
    then record c { x = add64 c.x 1 }
    else if d == b's' || d == b'D'
    then record c { y = sub64 c.y 1 }
    else if d == b'd' || d == b'R'
    then record c { x = sub64 c.x 1 }
    else c

pub increase_snake : Player → Player
increase_snake p =
    if ltb p.length max_length
    then record p {
      body = update p.body p.length (add_new_tail p);
      length = p.length + 1;
      points = p.points + 1;
    }
    else p

-- The loop of `updateSnake`, from `i` down.
pub shift : ℕ → (ℕ → Coordinates) → ℕ → Coordinates
shift zero body = body
shift (suc zero) body = body
shift (suc (suc i)) body = shift (suc i) (update body (suc i) (body i))

-- `updateSnake` without `ateFood`: the cells follow the head.
pub follow : Player → Player
follow p = record p { body = update (shift p.length p.body) 0 p.head }

-- A step of the head by a key, `w a s d` or `U L D R`.
pub stepped : ℕ → Coordinates → Coordinates
stepped key c =
    if key == b'w' || key == b'U'
    then record c { y = sub64 c.y 1 }
    else if key == b'a' || key == b'L'
    then record c { x = sub64 c.x 1 }
    else if key == b's' || key == b'D'
    then record c { y = add64 c.y 1 }
    else record c { x = add64 c.x 1 }

abbrev pub opposite : ℕ → ℕ
opposite key =
    if key == b'w'
    then b's'
    else if key == b's'
    then b'w'
    else if key == b'a'
    then b'd'
    else if key == b'd'
    then b'a'
    else if key == b'U'
    then b'D'
    else if key == b'D'
    then b'U'
    else if key == b'L'
    then b'R'
    else b'L'

-- A case of `updatePosition`, up to `updateSnake`: a snake does not turn back on itself.
pub steer : ℕ → Player → Option Player
steer key p =
    if p.direction == opposite key
    then none
    else some (record p { head = stepped key p.head; direction = key })

abbrev pub is_key1 : ℕ → Bool
is_key1 key = key == b'w' || (key == b'a' || (key == b's' || key == b'd'))

abbrev pub is_key2 : ℕ → Bool
is_key2 key = key == b'U' || (key == b'L' || (key == b'D' || key == b'R'))

-- `updateSnake` and `ateFood` for a player that has moved; `put` writes the player back.
pub advance : ℕ → ℕ → (Player → Game → Game) → Player → Game → List ℕ → Option (Game × List ℕ)
advance width height put p g ticks =
    let q = follow p in
    if same q.head g.food
    then set_food width height (put (increase_snake q) g) ticks
    else some (put q g, ticks)

abbrev pub put1 : Player → Game → Game
put1 p g = record g { player1 = p }

abbrev pub put2 : Player → Game → Game
put2 p g = record g { player2 = p }

-- What the switch of `updatePosition` does with the player that a key steers.
pub turn : ℕ → ℕ → ℕ → Player → (Player → Game → Game) → Game → List ℕ → Option (Game × List ℕ)
turn width height key p put g ticks = elim (steer key p) [
  | none ↦ some (g, ticks)
  | some q ↦ advance width height put q g ticks
]

pub update_position : ℕ → ℕ → Bool → ℕ → Game → List ℕ → Option (Game × List ℕ)
update_position width height two key g ticks =
    if is_key1 key
    then turn width height key g.player1 put1 g ticks
    else if two && is_key2 key
    then turn width height key g.player2 put2 g ticks
    else some (g, ticks)
