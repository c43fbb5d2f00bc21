-- ===== src/Snake/Point.antt =====
-- snake01/main.cpp: points, actions and the body of the snake.
use c_study.Base.{List, [], ◌∷◌, Bool, false, Option, none, some, ◌&&◌, ◌||◌, if◌then◌else◌}
use c_study.Base.Int.{ℤ, ◌==ℤ◌, inc, dec}

pub data Action : Type 0 where
  left right up down : Action

pub record Point : Type 0 where
  pub x : ℤ
  pub y : ℤ

-- Point::operator==
unfoldable pub same : Point → Point → Bool
same p other = p.x ==ℤ other.x && p.y ==ℤ other.y

-- `std::find(points.begin(), points.end(), p) != points.end()`
unfoldable pub contains : List Point → Point → Bool
contains [] p = false
contains (q ∷ points) p = same q p || contains points p

-- `erase` at the first point that `std::find` gives
unfoldable pub erase : List Point → Point → List Point
erase [] p = []
erase (q ∷ points) p = if same q p then points else q ∷ erase points p

-- `pop_back`
unfoldable pub pop_back : List Point → List Point
pop_back [] = []
pop_back (p ∷ []) = []
pop_back (p ∷ q ∷ points) = p ∷ pop_back (q ∷ points)

-- Snake: `points_`, the head first.
pub record Snake : Type 0 where
  pub points : List Point

unfoldable pub step_to : Action → Point → Point
step_to left p = record p { x = dec p.x }
step_to right p = record p { x = inc p.x }
step_to up p = record p { y = dec p.y }
step_to down p = record p { y = inc p.y }

unfoldable front : List Point → Option Point
front [] = none
front (p ∷ points) = some p

-- Snake::NextPoint; `none` is `front()` of an empty list.
unfoldable pub next_point : Snake → Action → Option Point
unfolding front step_to
next_point s action = elim (front s.points) [ none ↦ none | some p ↦ some (step_to action p) ]

-- Snake::IsColliding, and Snake::Contains, which is the same
unfoldable pub is_colliding : Snake → Point → Bool
unfolding contains
is_colliding s p = contains s.points p

-- Snake::Prepend
unfoldable pub prepend : Snake → Point → Snake
prepend s next = record { points = next ∷ s.points }

-- Snake::Move
unfoldable pub move : Snake → Point → Snake
unfolding pop_back
move s next = record { points = pop_back (next ∷ s.points) }
