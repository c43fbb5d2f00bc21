-- ===== src/Snake/Display.antt =====
-- snake01/main.cpp, Snake::Display and Board::Display: the calls of `mvaddch`.
use c_study.Base.{◌≡◌, List, [], ◌∷◌, ◌++◌, map, true, All}
use c_study.Snake.Point.{Point, Snake}
use c_study.Snake.Board.{Board, is_valid_point}
use c_study.Snake.Invariant.{IsValid, IsDrawable}

-- ACS_BLOCK and ACS_DIAMOND
pub data Glyph : Type 0 where
  block diamond : Glyph

pub record Cell : Type 0 where
  pub point : Point
  pub glyph : Glyph

unfoldable pub display_snake : Snake → List Cell
display_snake s = map (λ p. record { point = p; glyph = block }) s.points

unfoldable pub display : Board → List Cell
unfolding display_snake
display b = display_snake b.snake ++ map (λ p. record { point = p; glyph = diamond }) b.foods

-- The snake is drawn on the screen; food may stand one row or one column outside of it.
abbrev IsShown : Board → Cell → Type 0
IsShown b c = elim c.glyph [
  | block ↦ is_valid_point b c.point ≡ true
  | diamond ↦ IsDrawable b.rows b.columns c.point
]

foods-IsShown :
    (b : Board) (foods : List Point)
    → All (IsDrawable b.rows b.columns) foods
    → All (IsShown b) (map (λ p. record { point = p; glyph = diamond }) foods)
foods-IsShown b [] h = tt
foods-IsShown b (p ∷ foods) h = (h.0, foods-IsShown b foods h.1)

cells-IsShown :
    (b : Board) (points : List Point) (cells : List Cell)
    → All (λ p. is_valid_point b p ≡ true) points
    → All (IsShown b) cells
    → All (IsShown b) (map (λ p. record { point = p; glyph = block }) points ++ cells)
cells-IsShown b [] cells h k = k
cells-IsShown b (p ∷ points) cells h k = (h.0, cells-IsShown b points cells h.1 k)

-- On a valid board every cell of the snake is drawn on the screen, and every food at most one row below it or
-- one column right of it.
display-IsShown : (b : Board) → IsValid b → All (IsShown b) (display b)
unfolding display
display-IsShown b v = cells-IsShown b b.snake.points _ v.inside (foods-IsShown b b.foods v.drawable)
