-- ===== src/Snakes/Food.antt =====
-- Where the food is put.
use tpe2_so.Base.{
  ℕ, zero, suc, ◌+◌, ◌/◌, ◌%◌, ◌^◌, ◌≤◌, ◌<◌, ◌≡◌, ◌⊎◌, inl, inr, refl, true, false, none, some,
  List, [], ◌∷◌, arith, ==-cases, Bool-cases, All,
}
use tpe2_so.Snakes.{
  Coordinates, Player, Game, size, same, check_from, check_in_snake, candidate, is_bad, generate,
  set_food,
}

-- No cell of a player is at the position.
abbrev Clear : Player → Coordinates → Type 0
Clear p c = (i : ℕ) → i < p.length → same (p.body i) c ≡ false

check_from-Clear :
    (turns i : ℕ) (p q : Player) (c : Coordinates) (j : ℕ)
    → p.length ≤ i + turns
    → q.length ≤ i + turns
    → check_from turns i p q c ≡ false
    → i ≤ j
    → (j < p.length → same (p.body j) c ≡ false) × (j < q.length → same (q.body j) c ≡ false)
unfolding check_from
check_from-Clear zero i p q c j hp hq e le =
    ((λ h. absurd (omega arith)), λ h. absurd (omega arith))
check_from-Clear (suc turns) i p q c j hp hq e le = elim (==-cases j i) [
  | inl here ↦ rw here (ground arith)
  | inr later ↦ ground (arith, check_from-Clear turns (i + 1) p q c j)
]

-- A good place: on the board, and clear of both players.
pub record IsGood (width height : ℕ) (g : Game) (c : Coordinates) : Type 0 where
  pub in_width : c.x < width / size
  pub in_height : c.y < height / size
  pub clear1 : Clear g.player1 c
  pub clear2 : Clear g.player2 c

is_bad-IsGood :
    (width height : ℕ) (g : Game) (c : Coordinates)
    → is_bad width height g c ≡ false
    → IsGood width height g c
unfolding is_bad check_in_snake
is_bad-IsGood width height g c e =
    let none : check_from (g.player1.length + g.player2.length) 0 g.player1 g.player2 c ≡ false =
      ground arith in
    record {
      in_width = ground arith;
      in_height = ground arith;
      clear1 = λ i h.
          (check_from-Clear _ 0 g.player1 g.player2 c i (omega arith) (omega arith) none
              (omega arith)).0
            h;
      clear2 = λ i h.
          (check_from-Clear _ 0 g.player1 g.player2 c i (omega arith) (omega arith) none
              (omega arith)).1
            h;
    }

-- What the loop of `generateRandomPosition` comes to: the first good place that a tick gives, or it
-- is still trying, and no tick gave a good one.
generate_cases :
    (width height : ℕ) (g : Game) (ticks : List ℕ)
    → ((c : Coordinates) × (left : List ℕ) × (generate width height g ticks ≡ some (c, left))
        × (is_bad width height g c ≡ false))
      ⊎ ((generate width height g ticks ≡ none)
          × All (λ seed. is_bad width height g (candidate width height seed) ≡ true) ticks)
unfolding generate
generate_cases width height g [] = inr (refl, tt)
generate_cases width height g (seed ∷ ticks) =
    let c = candidate width height seed in
    elim (Bool-cases (is_bad width height g c)) [
      | inr good ↦ inl (c, ticks, (rw good refl), good)
      | inl bad ↦ elim (generate_cases width height g ticks) [
        | inl (d, left, e, good) ↦ inl (d, left, rw bad e, good)
        | inr (e, all) ↦ inr (rw bad e, (bad, all))
      ]
    ]

-- For a board of less than 2 ^ 16 pixels each way, and whatever the ticks are: where `setFood` comes
-- to an end, the food lies on the board and on no cell of either player, and the players are as
-- before; where it does not, no tick gave a good place, or only the last one did, which leaves none
-- for the colour.
pub set_food-IsGood :
    (width height : ℕ) (g : Game) (ticks : List ℕ)
    → width < 2 ^ 16
    → height < 2 ^ 16
    → ((t : Game) × (left : List ℕ) × (set_food width height g ticks ≡ some (t, left))
        × IsGood width height g t.food
        × (t.player1 ≡ g.player1)
        × (t.player2 ≡ g.player2))
      ⊎ ((set_food width height g ticks ≡ none)
          × (All (λ seed. is_bad width height g (candidate width height seed) ≡ true) ticks
              ⊎ ((c : Coordinates) × (generate width height g ticks ≡ some (c, [])))))
unfolding set_food
set_food-IsGood width height g ticks hw hh =
    let w : width % 2 ^ 16 ≡ width = omega arith in
    let h : height % 2 ^ 16 ≡ height = omega arith in
    elim (generate_cases width height g ticks) [
      | inr (e, all) ↦ inr (rw (w, h, e) refl, inl all)
      | inl (c, [], e, good) ↦ inr (rw (w, h, e) refl, inr (c, e))
      | inl (c, color ∷ left, e, good) ↦ inl (
        record g { food = c },
        left,
        rw (w, h, e) refl,
        is_bad-IsGood width height g c good,
        refl,
        refl,
      )
    ]
