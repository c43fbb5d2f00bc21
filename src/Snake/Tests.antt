-- ===== src/Snake/Tests.antt =====
-- snake01/main.cpp: a short game on a screen of five rows and four columns.
use c_study.Base.{ℕ, ◌≡◌, refl, List, [], ◌∷◌, true, some, arith, All}
use c_study.Base.Int.{pos}
use c_study.Snake.Point.{
  right, Point, same, contains, erase, pop_back, step_to, next_point, is_colliding, prepend, move,
}
use c_study.Snake.Board.{
  Board, below, is_valid_point, contains_in_foods, generate_new_food, eat, move_to, move_snake,
  place_foods, new_board,
}
use c_study.Snake.Game.{key_down, other, read_next_action, Played, rounds, init_snake, main}
use c_study.Snake.Move.{is_taken}
use c_study.Snake.Invariant.{IsDrawable}
use c_study.Snake.Play.{Sound, main-Sound}
use c_study.Snake.Turn.{Turn, move_snake-Turn}
use c_study.Snake.Stranded.{Stranded}

program : Unit {0}
unfolding same contains erase pop_back step_to next_point is_colliding prepend move below
    is_valid_point contains_in_foods generate_new_food eat move_to move_snake place_foods new_board
    read_next_action rounds main is_taken
program = tt

abbrev at : ℕ → ℕ → Point
at x y = record { x = pos x; y = pos y }

-- The second draw is a cell of the snake; the third one lies below the board.
abbrev draws : List Point
draws = at 3 3 ∷ at 2 3 ∷ at 1 5 ∷ at 0 0 ∷ at 0 1 ∷ at 0 2 ∷ at 1 0 ∷ at 1 1 ∷ at 1 2 ∷ []

abbrev near : All (IsDrawable 5 4) draws
unfolding program IsDrawable
near = (
  (refl, refl),
  (
    (refl, refl),
    (
      (refl, refl),
      (
        (refl, refl),
        ((refl, refl), ((refl, refl), ((refl, refl), ((refl, refl), ((refl, refl), tt))))),
      ),
    ),
  ),
)

-- To the right, where food is, down, and off the board.
abbrev game : (r : Played) × (main 5 4 (other ∷ key_down ∷ other ∷ []) draws ≡ some r)
unfolding program
game = (_, refl)

game_ends : (game.0.over ≡ true) × (game.0.board.snake.points ≡ at 3 4 ∷ at 3 3 ∷ at 2 3 ∷ [])
unfolding game program
game_ends = (refl, refl)

main-Sound_example : Sound 6 5 4 game.0.board game.0.draws
unfolding game
main-Sound_example =
    main-Sound 5 4 (other ∷ key_down ∷ other ∷ []) draws {r = game.0} (omega arith) (omega arith)
      near game.1

abbrev small : Board
small = record { snake = init_snake; foods = at 3 3 ∷ at 1 5 ∷ []; rows = 5; columns = 4 }

move_snake-Turn_example :
    Turn small
      (at 2 3 ∷ [])
      (at 3 3)
      (at 2 2 ∷ [])
      (at 0 0)
      []
      (move_snake right (at 2 2 ∷ at 0 0 ∷ []) small)
unfolding program
move_snake-Turn_example =
    move_snake-Turn right small (at 2 3) (at 3 3) (at 2 2) (at 0 0) (at 2 2 ∷ []) (at 2 3 ∷ [])
      (at 2 2 ∷ []) [] refl refl (refl, refl) (refl, tt) refl

below_board : Stranded (at 1 5) small
unfolding program
below_board = record { off = refl; food = refl }
