-- ===== src/Snake/Invariant.antt =====
-- snake01/main.cpp: what holds of every board.
use mathlib.Core.Path.{subst}
use c_study.Base.{
  ℕ, ◌+◌, ◌≤◌, ◌≡◌, refl, ◌∙◌, sym, ap, inl, inr, List, [], ◌∷◌, ◌++◌, true, false, some, arith,
  length, length-append, All, All-append, All-map, bind_some, Bool-cases,
}
use c_study.Snake.Point.{Point, contains, erase, is_colliding, prepend, move}
use c_study.Snake.Board.{
  Board, below, is_valid_point, contains_in_foods, generate_new_food, Moved, eat, move_to,
}
use c_study.Snake.Cells.{
  IsDistinct, Apart, contains-pop_back, pop_back-IsDistinct, pop_back-All, length-pop_back,
  erase-IsDistinct, erase-All, length-erase, append-IsDistinct, cons-Apart,
}
use c_study.Snake.Move.{is_taken, generate_new_food-Placed}

-- A point that the distributions can draw: one column and one row more than the board has.
unfoldable pub IsDrawable : ℕ → ℕ → Point → Type 0
IsDrawable rows columns p = (below p.x (columns + 1) ≡ true) × (below p.y (rows + 1) ≡ true)

-- The snake lies on the board and does not cross itself; the foods are different points that can be
-- drawn, none of them on the snake.
pub record IsValid (b : Board) : Type 0 where
  pub distinct : IsDistinct b.snake.points
  pub inside : All (λ p. is_valid_point b p ≡ true) b.snake.points
  pub foods_distinct : IsDistinct b.foods
  pub apart : Apart b.snake.points b.foods
  pub drawable : All (IsDrawable b.rows b.columns) b.foods

module _ (b : Board) (next : Point) (v : IsValid b) (valid : is_valid_point b next ≡ true)
    (clear : contains b.snake.points next ≡ false) (no_food : contains b.foods next ≡ false) where
  crawl-IsValid : IsValid (record b { snake = move b.snake next })
  unfolding move is_valid_point
  crawl-IsValid = record {
    distinct = pop_back-IsDistinct (next ∷ b.snake.points) (clear, v.distinct);
    inside = pop_back-All _ (next ∷ b.snake.points) (valid, v.inside);
    foods_distinct = v.foods_distinct;
    apart =
        All-map _ _ (contains-pop_back (next ∷ b.snake.points)) b.foods
          (cons-Apart next b.snake.points b.foods no_food v.apart);
    drawable = v.drawable;
  }

module _ (b : Board) (next : Point) (v : IsValid b) (valid : is_valid_point b next ≡ true)
    (clear : contains b.snake.points next ≡ false) where
  eaten-IsValid : IsValid (record b { snake = prepend b.snake next; foods = erase b.foods next })
  unfolding prepend is_valid_point
  eaten-IsValid =
      let (foods, gone) = erase-IsDistinct b.foods next v.foods_distinct in
      record {
        distinct = (clear, v.distinct);
        inside = (valid, v.inside);
        foods_distinct = foods;
        apart =
            cons-Apart next b.snake.points (erase b.foods next) gone
              (erase-All _ b.foods next v.apart);
        drawable = erase-All _ b.foods next v.drawable;
      }

pub placed-IsValid :
    (b : Board) (p : Point)
    → IsValid b
    → is_taken b p ≡ false
    → IsDrawable b.rows b.columns p
    → IsValid (record b { foods = b.foods ++ p ∷ [] })
unfolding is_taken is_valid_point
placed-IsValid b p v free near = record {
  distinct = v.distinct;
  inside = v.inside;
  foods_distinct = append-IsDistinct b.foods p (ground arith) v.foods_distinct;
  apart = All-append _ (ground arith) b.foods v.apart;
  drawable = All-append _ near b.foods v.drawable;
}

-- What a call of MoveSnake on a valid board leaves as it was.
pub record Kept (b : Board) (m : Moved) : Type 0 where
  pub valid : IsValid m.board
  pub foods : length m.board.foods ≡ length b.foods
  pub long : length b.snake.points ≤ length m.board.snake.points
  pub rows : m.board.rows ≡ b.rows
  pub columns : m.board.columns ≡ b.columns
  pub draws : All (IsDrawable b.rows b.columns) m.draws

unmoved-Kept :
    (b : Board) (draws : List Point)
    → IsValid b
    → All (IsDrawable b.rows b.columns) draws
    → Kept b (record { moved = false; board = b; draws = draws })
unmoved-Kept b draws v a = record {
  valid = v;
  foods = refl;
  long = omega arith;
  rows = refl;
  columns = refl;
  draws = a;
}

module _ (draws : List Point) (b : Board) (next : Point) (v : IsValid b)
    (a : All (IsDrawable b.rows b.columns) draws) (valid : is_valid_point b next ≡ true)
    (clear : contains b.snake.points next ≡ false) where
  crawl-Kept :
      contains b.foods next ≡ false
      → Kept b
          (record { moved = true; board = record b { snake = move b.snake next }; draws = draws })
  unfolding move
  crawl-Kept no_food = record {
    valid = crawl-IsValid b next v valid clear no_food;
    foods = refl;
    long = omega (arith, length-pop_back next b.snake.points);
    rows = refl;
    columns = refl;
    draws = a;
  }

  -- The board on which the new food is drawn.
  abbrev eaten : Board
  eaten = record b { snake = prepend b.snake next; foods = erase b.foods next }

  placed-Kept :
      (p : Point) (later : List Point)
      → contains b.foods next ≡ true
      → is_taken eaten p ≡ false
      → IsDrawable b.rows b.columns p
      → All (IsDrawable b.rows b.columns) later
      → Kept b (record {
        moved = true;
        board = record eaten { foods = erase b.foods next ++ p ∷ [] };
        draws = later;
      })
  unfolding prepend
  placed-Kept p later food free near rest = record {
    valid = placed-IsValid eaten p (eaten-IsValid b next v valid clear) free near;
    foods =
        omega (arith, length-append (erase b.foods next) (p ∷ []), length-erase b.foods next food);
    long = omega arith;
    rows = refl;
    columns = refl;
    draws = rest;
  }

  eat-Kept : {m : Moved} → contains b.foods next ≡ true → eat draws b next ≡ some m → Kept b m
  unfolding eat
  eat-Kept {m} food e =
      let (drawn, ed, em) = bind_some (generate_new_food draws eaten) _ e in
      let placed = generate_new_food-Placed (IsDrawable b.rows b.columns) draws eaten a ed in
      let to : Board → Moved = λ k. record { moved = true; board = k; draws = drawn.draws } in
      let returned : to drawn.board ≡ m = cc em in
      subst (Kept b) (ap to (sym placed.board) ∙ returned)
        (placed-Kept placed.food drawn.draws food placed.free placed.drawable placed.draws)

-- Every call of MoveSnake that ends keeps a valid board valid, with as many foods as before and a snake
-- that is no shorter.
pub move_to-Kept :
    (draws : List Point) (b : Board) (next : Point) {m : Moved}
    → IsValid b
    → All (IsDrawable b.rows b.columns) draws
    → move_to draws b next ≡ some m
    → Kept b m
unfolding move_to is_colliding contains_in_foods
move_to-Kept draws b next {m} v a e = elim (Bool-cases (is_valid_point b next)) [
  | inl valid ↦ elim (Bool-cases (contains b.snake.points next)) [
    | inl hit ↦ subst (Kept b) (ground arith) (unmoved-Kept b draws v a)
    | inr clear ↦ elim (Bool-cases (contains b.foods next)) [
      | inl food ↦ eat-Kept draws b next v a valid clear food (ground arith)
      | inr no_food ↦
          subst (Kept b) (ground arith) (crawl-Kept draws b next v a valid clear no_food)
    ]
  ]
  | inr off ↦ subst (Kept b) (ground arith) (unmoved-Kept b draws v a)
]
