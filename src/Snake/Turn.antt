-- ===== src/Snake/Turn.antt =====
-- snake01/main.cpp, Board::MoveSnake, against the rules of the game in coordinates.
use mathlib.Core.Path.{subst}
use c_study.Base.{
  ℕ, zero, suc, ◌<◌, ◌≡◌, refl, sym, ap, ◌∙◌, ◌⊎◌, inl, inr, List, [], ◌∷◌, ◌++◌, true, false,
  Option, some, arith, All, Bool-cases,
}
use c_study.Base.Int.{ℤ, pos, negsuc, inc, dec}
use c_study.Snake.Point.{
  Action, left, right, up, down, Point, same, contains, erase, pop_back, step_to,
}
use c_study.Snake.Board.{Board, below, is_valid_point, Moved, move_snake}
use c_study.Snake.Cells.{same_iff}
use c_study.Snake.Move.{is_taken}
use c_study.Snake.Rules.{eaten, Outcome, move_snake_lem}

-- `q` is the cell beside `p` in the direction of the action; rows grow downwards.
abbrev pub IsStep : Action → Point → Point → Type 0
IsStep left p q = (p.x ≡ inc q.x) × (q.y ≡ p.y)
IsStep right p q = (q.x ≡ inc p.x) × (q.y ≡ p.y)
IsStep up p q = (q.x ≡ p.x) × (p.y ≡ inc q.y)
IsStep down p q = (q.x ≡ p.x) × (q.y ≡ inc p.y)

-- A cell in one of the columns and one of the rows of the board.
abbrev pub IsOn : Board → Point → Type 0
IsOn b p = (i j : ℕ) × (p.x ≡ pos i) × (p.y ≡ pos j) × (i < b.columns) × (j < b.rows)

abbrev pub Has : List Point → Point → Type 0
Has [] p = ⊥
Has (q ∷ qs) p = (q ≡ p) ⊎ Has qs p

-- How a move to the cell `next` ends, for a snake of the cells `front` and the last cell `tail`.
abbrev pub Turn :
    Board
    → (front : List Point) → (next : Point) → (skipped : List Point) → Point
    → List Point
    → Option Moved
    → Type 0
Turn b front next skipped p later m =
    (((¬ IsOn b next) ⊎ Has b.snake.points next)
      × (m ≡ some (record { moved = false; board = b; draws = skipped ++ p ∷ later })))
    ⊎ (IsOn b next
        × (¬ Has b.snake.points next)
        × (((xs ys : List Point) × (b.foods ≡ xs ++ next ∷ ys)
              × (m
                  ≡ some (record {
                    moved = true;
                    board = record b {
                      snake = record { points = next ∷ b.snake.points };
                      foods = (xs ++ ys) ++ p ∷ [];
                    };
                    draws = later;
                  })))
            ⊎ ((¬ Has b.foods next)
                × (m
                    ≡ some (record {
                      moved = true;
                      board = record b { snake = record { points = next ∷ front } };
                      draws = skipped ++ p ∷ later;
                    })))))

dec-inc : (a : ℤ) → dec (inc a) ≡ a
dec-inc (pos n) = refl
dec-inc (negsuc zero) = refl
dec-inc (negsuc (suc n)) = refl

IsStep-step_to : (action : Action) (p q : Point) → IsStep action p q → step_to action p ≡ q
unfolding step_to
IsStep-step_to left p q h = λ i. record { x = (ap dec h.0 ∙ dec-inc q.x) i; y = sym h.1 i }
IsStep-step_to right p q h = λ i. record { x = sym h.0 i; y = sym h.1 i }
IsStep-step_to up p q h = λ i. record { x = sym h.0 i; y = (ap dec h.1 ∙ dec-inc q.y) i }
IsStep-step_to down p q h = λ i. record { x = sym h.0 i; y = sym h.1 i }

below-pos : (a : ℤ) (n : ℕ) → below a n ≡ true → (i : ℕ) × (a ≡ pos i) × (i < n)
unfolding below
below-pos (pos i) n h = (i, refl, ground arith)
below-pos (negsuc i) n h = cc

pos-below : (a : ℤ) (i n : ℕ) → a ≡ pos i → i < n → below a n ≡ true
unfolding below
pos-below a i n e h = rw (e, below) (ground arith)

is_valid_point-IsOn : (b : Board) (p : Point) → is_valid_point b p ≡ true → IsOn b p
unfolding is_valid_point
is_valid_point-IsOn b p h =
    let (i, e, l) = below-pos p.x b.columns (ground arith) in
    let (j, f, k) = below-pos p.y b.rows (ground arith) in (i, j, e, f, l, k)

IsOn-is_valid_point : (b : Board) (p : Point) → IsOn b p → is_valid_point b p ≡ true
unfolding is_valid_point
IsOn-is_valid_point b p (i, j, e, f, l, k) =
    rw (pos-below p.x i b.columns e l, is_valid_point) (pos-below p.y j b.rows f k)

contains-Has : (ps : List Point) (p : Point) → contains ps p ≡ true → Has ps p
unfolding contains
contains-Has [] p h = cc
contains-Has (q ∷ ps) p h = elim (Bool-cases (same q p)) [
  | inl t ↦ inl ((same_iff q p).0 t)
  | inr f ↦ inr (contains-Has ps p (ground arith))
]

Has-contains : (ps : List Point) (p : Point) → Has ps p → contains ps p ≡ true
unfolding contains
Has-contains [] p h = absurd h
Has-contains (q ∷ ps) p (inl e) = let t = (same_iff q p).1 e in ground arith
Has-contains (q ∷ ps) p (inr h) = ground (arith, Has-contains ps p h)

contains-not : (ps : List Point) (p : Point) → contains ps p ≡ false → ¬ Has ps p
contains-not ps p e h = let t = Has-contains ps p h in cc

erase-split :
    (ps : List Point) (p : Point)
    → contains ps p ≡ true
    → (xs ys : List Point) × (ps ≡ xs ++ p ∷ ys) × (erase ps p ≡ xs ++ ys)
unfolding contains erase
erase-split [] p h = cc
erase-split (q ∷ ps) p h = elim (Bool-cases (same q p)) [
  | inl t ↦ ([], ps, ap (λ r. r ∷ ps) ((same_iff q p).0 t), rw (t, erase) refl)
  | inr f ↦
      let (xs, ys, e, g) = erase-split ps p (ground arith) in
      (q ∷ xs, ys, ap (◌∷◌ q) e, rw (f, erase) (ap (◌∷◌ q) g))
]

pop_back-snoc : (ps : List Point) (p : Point) → pop_back (ps ++ p ∷ []) ≡ ps
unfolding pop_back
pop_back-snoc [] p = refl
pop_back-snoc (q ∷ []) p = refl
pop_back-snoc (q ∷ r ∷ ps) p = ap (◌∷◌ q) (pop_back-snoc (r ∷ ps) p)

Outcome-Turn :
    (b : Board) (next : Point) (skipped : List Point) (p : Point) (later front : List Point)
    (tail : Point) (m : Option Moved)
    → b.snake.points ≡ front ++ tail ∷ []
    → Outcome b next skipped p later m
    → Turn b front next skipped p later m
Outcome-Turn b next skipped p later front tail m e (inl s) = inl (
  (elim s.why [
    | inl off ↦ inl (λ on. let t = IsOn-is_valid_point b next on in cc)
    | inr hit ↦ inr (contains-Has b.snake.points next hit)
  ]),
  s.result,
)
Outcome-Turn b next skipped p later front tail m e (inr (f, inl g)) =
    let (xs, ys, split, erased) = erase-split b.foods next g.food in
    inr (
      is_valid_point-IsOn b next f.inside,
      contains-not b.snake.points next f.clear,
      inl (
        xs,
        ys,
        split,
        g.result
            ∙ ap
                (λ (foods : List Point). some (record {
                  moved = true;
                  board = record b {
                    snake = record { points = next ∷ b.snake.points };
                    foods = foods ++ p ∷ [];
                  };
                  draws = later;
                }))
                erased,
      ),
    )
Outcome-Turn b next skipped p later front tail m e (inr (f, inr c)) = inr (
  is_valid_point-IsOn b next f.inside,
  contains-not b.snake.points next f.clear,
  inr (
    contains-not b.foods next c.no_food,
    c.result
        ∙ ap
            (λ (points : List Point). some (record {
              moved = true;
              board = record b { snake = record { points = next ∷ points } };
              draws = skipped ++ p ∷ later;
            }))
            (ap pop_back e ∙ pop_back-snoc front tail),
  ),
)

-- MoveSnake on a board whose snake has the head `head` and the last cell `tail`, where `next` is the cell
-- beside the head in the direction of the action. If `next` is off the board or a cell of the snake, `tail`
-- included, the board stays and the game is over. Otherwise `next` becomes the head. If there was food on it,
-- one food there goes, the snake keeps all its cells and the first draw that is not taken becomes a new food.
-- If there was none, the snake loses `tail` and nothing else changes.
pub move_snake-Turn :
    (action : Action) (b : Board) (head next tail p : Point) (body front skipped later : List Point)
    → b.snake.points ≡ head ∷ body
    → b.snake.points ≡ front ++ tail ∷ []
    → IsStep action head next
    → All (λ q. is_taken (eaten b next) q ≡ true) skipped
    → is_taken (eaten b next) p ≡ false
    → Turn b front next skipped p later (move_snake action (skipped ++ p ∷ later) b)
move_snake-Turn action b head next tail p body front skipped later e f step taken free =
    let same = IsStep-step_to action head next step in
    Outcome-Turn b next skipped p later front tail _ f (
      subst (λ q. Outcome b q skipped p later (move_snake action (skipped ++ p ∷ later) b)) same
        (move_snake_lem action b head body skipped p later e
          (subst (λ q. All (λ r. is_taken (eaten b q) r ≡ true) skipped) (sym same) taken)
          (subst (λ q. is_taken (eaten b q) p ≡ false) (sym same) free)))
