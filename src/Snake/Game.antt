-- ===== src/Snake/Game.antt =====
-- snake01/main.cpp, ReadNextAction and `main`. What `getch` gives, a timeout included, is a list of keys.
use c_study.Base.{ℕ, List, [], ◌∷◌, Bool, true, false, Option, some, ◌>>=◌}
use c_study.Base.Int.{pos}
use c_study.Snake.Point.{Action, left, right, up, down, Point, Snake}
use c_study.Snake.Board.{Board, move_snake, new_board}

pub data Key : Type 0 where
  key_left key_right key_up key_down other : Key

unfoldable pub read_next_action : Action → Key → Action
read_next_action right key_left = right
read_next_action prev key_left = left
read_next_action left key_right = left
read_next_action prev key_right = right
read_next_action down key_up = down
read_next_action prev key_up = up
read_next_action up key_down = up
read_next_action prev key_down = down
read_next_action prev other = prev

-- The board and the last action after some rounds, and whether the loop of `main` was left.
pub record Played : Type 0 where
  pub over : Bool
  pub board : Board
  pub action : Action
  pub draws : List Point

-- The loop of `main`, one round for each key.
unfoldable pub rounds : List Key → Action → List Point → Board → Option Played
unfolding read_next_action move_snake
rounds [] action draws b = some (record { over = false; board = b; action = action; draws = draws })
rounds (key ∷ keys) prev draws b = do
  let action = read_next_action prev key
  m ← move_snake action draws b
  elim m.moved [
    | true ↦ rounds keys action m.draws m.board
    | false ↦ some (record { over = true; board = m.board; action = action; draws = m.draws })
  ]

abbrev pub food_count : ℕ
food_count = 6

abbrev pub init_snake : Snake
init_snake = record {
  points = (record { x = pos 2; y = pos 3 }) ∷ (record { x = pos 2; y = pos 2 }) ∷ [];
}

-- `main` on a screen of `max_y` rows and `max_x` columns
unfoldable pub main : ℕ → ℕ → List Key → List Point → Option Played
unfolding new_board rounds
main max_y max_x keys draws = do
  drawn ← new_board init_snake max_y max_x food_count draws
  rounds keys right drawn.draws drawn.board
