-- ===== src/Snake/Board.antt =====
-- snake01/main.cpp, Board. The random points that the distributions draw are a list: a column from 0 to
-- `columns_` and a row from 0 to `rows_`, both ends included. The size of the screen is not negative.
use c_study.Base.{
  ℕ, zero, suc, List, [], ◌∷◌, ◌++◌, Bool, true, false, Option, none, some, ◌&&◌, not, ltb,
  if◌then◌else◌, ◌>>=◌,
}
use c_study.Base.Int.{ℤ, pos, negsuc}
use c_study.Snake.Point.{
  Action, Point, Snake, contains, erase, next_point, is_colliding, prepend, move,
}

pub record Board : Type 0 where
  pub snake : Snake
  pub foods : List Point
  pub rows : ℕ
  pub columns : ℕ

-- `0 <= n && n < size`
unfoldable pub below : ℤ → ℕ → Bool
below (pos n) size = ltb n size
below (negsuc n) size = false

-- Board::IsValidPoint
unfoldable pub is_valid_point : Board → Point → Bool
unfolding below
is_valid_point b p = below p.x b.columns && below p.y b.rows

-- Board::ContainsInFoods
unfoldable pub contains_in_foods : Board → Point → Bool
unfolding contains
contains_in_foods b p = contains b.foods p

-- A board, and the draws that are left.
pub record Drawn : Type 0 where
  pub board : Board
  pub draws : List Point

-- Board::GenerateNewFood; `none` is the loop that goes on after the last draw.
unfoldable pub generate_new_food : List Point → Board → Option Drawn
unfolding is_colliding contains_in_foods
generate_new_food [] b = none
generate_new_food (p ∷ draws) b =
    let again = generate_new_food draws b in
    if not (is_colliding b.snake p) && not (contains_in_foods b p)
    then some (record { board = record b { foods = b.foods ++ p ∷ [] }; draws = draws })
    else again

-- What Board::MoveSnake returns, with the board and the draws that are left.
pub record Moved : Type 0 where
  pub moved : Bool
  pub board : Board
  pub draws : List Point

-- The branch in which there is food at `next`.
unfoldable pub eat : List Point → Board → Point → Option Moved
unfolding prepend erase generate_new_food
eat draws b next = do
  drawn ←
      generate_new_food draws
        (record b { snake = prepend b.snake next; foods = erase b.foods next })
  some (record { moved = true; board = drawn.board; draws = drawn.draws })

-- Board::MoveSnake from the next point on
unfoldable pub move_to : List Point → Board → Point → Option Moved
unfolding is_valid_point is_colliding contains_in_foods move
move_to draws b next =
    if not (is_valid_point b next)
    then some (record { moved = false; board = b; draws = draws })
    else (if is_colliding b.snake next
        then some (record { moved = false; board = b; draws = draws })
        else (if contains_in_foods b next
            then eat draws b next
            else some (record {
              moved = true;
              board = record b { snake = move b.snake next };
              draws = draws;
            })))

-- Board::MoveSnake
unfoldable pub move_snake : Action → List Point → Board → Option Moved
unfolding next_point move_to
move_snake action draws b = do next ← next_point b.snake action; move_to draws b next

-- The loop of the constructor, which draws `init_foods` foods.
unfoldable pub place_foods : ℕ → List Point → Board → Option Drawn
unfolding generate_new_food
place_foods zero draws b = some (record { board = b; draws = draws })
place_foods (suc init_foods) draws b = do
  drawn ← generate_new_food draws b
  place_foods init_foods drawn.draws drawn.board

-- Board::Board
unfoldable pub new_board : Snake → ℕ → ℕ → ℕ → List Point → Option Drawn
unfolding place_foods
new_board snake rows columns init_foods draws =
    place_foods init_foods draws
      (record { snake = snake; foods = []; rows = rows; columns = columns })
