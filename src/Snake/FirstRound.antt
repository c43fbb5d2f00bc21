-- ===== src/Snake/FirstRound.antt =====
-- snake01/main.cpp: turning round, and the first key.
use c_study.Base.{
  ℕ, zero, suc, sym, ◌≡◌, refl, ◌∙◌, ap, ◌≢◌, List, ◌∷◌, true, false, some, arith, bind_some,
}
use c_study.Base.Int.{pos}
use c_study.Snake.Point.{Action, left, right, up, down, Point, same, next_point, is_colliding}
use c_study.Snake.Board.{
  Board, Drawn, generate_new_food, move_to, move_snake, place_foods, new_board,
}
use c_study.Snake.Rules.{move_snake-move_to}
use c_study.Snake.Move.{generate_new_food-Placed, all_drawn}
use c_study.Snake.Game.{Key, key_up, read_next_action, Played, rounds, food_count, init_snake, main}

abbrev pub opposite : Action → Action
opposite left = right
opposite right = left
opposite up = down
opposite down = up

-- No key turns the snake round.
pub read_next_action-opposite :
    (prev : Action) (key : Key) → read_next_action prev key ≢ opposite prev
unfolding read_next_action
read_next_action-opposite prev key e = ground arith

place_foods-snake :
    (k : ℕ) (draws : List Point) (b : Board) {drawn : Drawn}
    → place_foods k draws b ≡ some drawn
    → drawn.board.snake ≡ b.snake
unfolding place_foods
place_foods-snake zero draws b e = ground arith
place_foods-snake (suc k) draws b e =
    let (d, first, later) = bind_some (generate_new_food draws b) _ e in
    let placed = generate_new_food-Placed (λ _. Unit {0}) draws b (all_drawn draws) first in
    place_foods-snake k d.draws d.board later ∙ ap (λ c. c.snake) placed.board

move_to-is_colliding :
    (draws : List Point) (b : Board) (next : Point)
    → is_colliding b.snake next ≡ true
    → move_to draws b next ≡ some (record { moved = false; board = b; draws = draws })
unfolding move_to
move_to-is_colliding draws b next h = ground arith

-- The cell above the head of the first snake is the snake's own.
init_snake-up :
    (draws : List Point) (b : Board)
    → b.snake ≡ init_snake
    → move_snake up draws b ≡ some (record { moved = false; board = b; draws = draws })
unfolding move_snake next_point is_colliding same
init_snake-up draws b e =
    let above : Point = record { x = pos 2; y = pos 2 } in
    let first : next_point b.snake up ≡ some above = ap (λ s. next_point s up) e in
    let hit : is_colliding b.snake above ≡ true = ap (λ s. is_colliding s above) e in
    move_snake-move_to up draws b above first ∙ move_to-is_colliding draws b above hit

lost : List Point → Board → Played
lost draws b = record { over = true; board = b; action = up; draws = draws }

rounds-init_snake :
    (keys : List Key) (draws : List Point) (b : Board)
    → b.snake ≡ init_snake
    → rounds (key_up ∷ keys) right draws b ≡ some (lost draws b)
unfolding rounds read_next_action lost
rounds-init_snake keys draws b e = rw (init_snake-up draws b e) refl

-- Whatever the screen, the draws and the later keys, once the first foods are placed: a player whose first
-- key is the up key has lost in the first round, with the snake where it began.
main-key_up :
    (max_y max_x : ℕ) (keys : List Key) (draws : List Point) {r : Played}
    → main max_y max_x (key_up ∷ keys) draws ≡ some r
    → (r.over ≡ true) × (r.board.snake ≡ init_snake)
unfolding main new_board lost
main-key_up max_y max_x keys draws {r} e =
    let (d, placed, played) = bind_some (new_board init_snake max_y max_x food_count draws) _ e in
    let snake = place_foods-snake food_count draws _ placed in
    let returned : lost d.draws d.board ≡ r = cc (rounds-init_snake keys d.draws d.board snake) in
    (ap (λ q. q.over) (sym returned), ap (λ q. q.board.snake) (sym returned) ∙ snake)
