-- ===== src/Snake/Rules.antt =====
-- snake01/main.cpp: the rules of the game, move by move.
use c_study.Base.{
  ◌≡◌, refl, ap, ◌⊎◌, inl, inr, List, [], ◌∷◌, ◌++◌, true, false, Option, some, arith, All,
  Bool-cases,
}
use c_study.Snake.Point.{
  Action, Point, Snake, contains, erase, pop_back, step_to, next_point, is_colliding, prepend, move,
}
use c_study.Snake.Board.{Board, is_valid_point, contains_in_foods, Moved, eat, move_to, move_snake}
use c_study.Snake.Move.{is_taken, generate_new_food_lem}

-- The board after the snake has eaten at `next`, before the new food is placed.
abbrev pub eaten : Board → Point → Board
eaten b next = record b { snake = prepend b.snake next; foods = erase b.foods next }

-- The three ways in which a move of the snake with the head `head` ends.
pub record Stuck (b : Board) (next : Point) (draws : List Point) (m : Option Moved) : Type 0 where
  pub why : (is_valid_point b next ≡ false) ⊎ (contains b.snake.points next ≡ true)
  pub result : m ≡ some (record { moved = false; board = b; draws = draws })

pub record Eating (b : Board) (next p : Point) (later : List Point) (m : Option Moved)
    : Type 0 where
  pub food : contains b.foods next ≡ true
  pub result :
      m
      ≡ some (record {
        moved = true;
        board = record b {
          snake = record { points = next ∷ b.snake.points };
          foods = erase b.foods next ++ p ∷ [];
        };
        draws = later;
      })

pub record Crawling (b : Board) (next : Point) (draws : List Point) (m : Option Moved)
    : Type 0 where
  pub no_food : contains b.foods next ≡ false
  pub result :
      m
      ≡ some (record {
        moved = true;
        board = record b { snake = record { points = next ∷ pop_back b.snake.points } };
        draws = draws;
      })

pub record Free (b : Board) (next : Point) : Type 0 where
  pub inside : is_valid_point b next ≡ true
  pub clear : contains b.snake.points next ≡ false

module _ (b : Board) (next : Point) (skipped : List Point) (p : Point) (later : List Point)
    (taken : All (λ q. is_taken (eaten b next) q ≡ true) skipped)
    (free : is_taken (eaten b next) p ≡ false) where
  eat-Eating :
      contains b.foods next ≡ true → Eating b next p later (eat (skipped ++ p ∷ later) b next)
  unfolding eat prepend
  eat-Eating food = record {
    food = food;
    result = rw ((generate_new_food_lem (eaten b next) skipped p later taken free).0) refl;
  }

abbrev pub Outcome : Board → Point → List Point → Point → List Point → Option Moved → Type 0
Outcome b next skipped p later m =
    Stuck b next (skipped ++ p ∷ later) m
    ⊎ (Free b next × (Eating b next p later m ⊎ Crawling b next (skipped ++ p ∷ later) m))

pub next_point-cons :
    (s : Snake) (action : Action) (head : Point) (body : List Point)
    → s.points ≡ head ∷ body
    → next_point s action ≡ some (step_to action head)
unfolding next_point
next_point-cons s action head body e = rw (e, next_point) refl

pop_back-cons :
    (next head : Point) (body points : List Point)
    → points ≡ head ∷ body
    → pop_back (next ∷ points) ≡ next ∷ pop_back points
unfolding pop_back
pop_back-cons next head body points e = rw e refl

pub move_snake-move_to :
    (action : Action) (draws : List Point) (b : Board) (next : Point)
    → next_point b.snake action ≡ some next
    → move_snake action draws b ≡ move_to draws b next
unfolding move_snake
move_snake-move_to action draws b next e = rw e refl

crawl-Crawling :
    (b : Board) (next head : Point) (body draws : List Point)
    → b.snake.points ≡ head ∷ body
    → contains b.foods next ≡ false
    → Crawling b next draws (
        some
          (record { moved = true; board = record b { snake = move b.snake next }; draws = draws }))
unfolding move
crawl-Crawling b next head body draws e no_food = record {
  no_food = no_food;
  result =
      ap
        (λ (points : List Point). some (record {
          moved = true;
          board = record b { snake = record { points = points } };
          draws = draws;
        }))
        (pop_back-cons next head body b.snake.points e);
}

module _ (draws : List Point) (b : Board) (next : Point) (inside : is_valid_point b next ≡ true)
    (clear : contains b.snake.points next ≡ false) where
  pub move_to-eat : contains b.foods next ≡ true → move_to draws b next ≡ eat draws b next
  unfolding move_to is_colliding contains_in_foods
  move_to-eat food = ground arith

  pub move_to-move :
      contains b.foods next ≡ false
      → move_to draws b next
        ≡ some
            (record { moved = true; board = record b { snake = move b.snake next }; draws = draws })
  unfolding move_to is_colliding contains_in_foods
  move_to-move no_food = ground arith

-- On every board whose snake has a head, MoveSnake does one of three things with the next point in the
-- direction of the action. If it is off the board or on the snake, its tail included, the board stays and
-- the game is over. If there is food, the snake grows by that point, the food goes and the first free
-- draw becomes a new food, where the draws before it are taken. Otherwise the point becomes the new head
-- and the last cell is dropped.
pub move_snake_lem :
    (action : Action) (b : Board) (head : Point) (body skipped : List Point) (p : Point)
    (later : List Point)
    → b.snake.points ≡ head ∷ body
    → All (λ q. is_taken (eaten b (step_to action head)) q ≡ true) skipped
    → is_taken (eaten b (step_to action head)) p ≡ false
    → Outcome b (step_to action head) skipped p later (move_snake action (skipped ++ p ∷ later) b)
unfolding move_to is_colliding contains_in_foods
move_snake_lem action b head body skipped p later e taken free =
    let next = step_to action head in
    let draws = skipped ++ p ∷ later in
    rw (move_snake-move_to action draws b next (next_point-cons b.snake action head body e))
      (elim (Bool-cases (is_valid_point b next)) [
        | inr off ↦ inl (record { why = inl off; result = ground arith })
        | inl inside ↦ elim (Bool-cases (contains b.snake.points next)) [
          | inl hit ↦ inl (record { why = inr hit; result = ground arith })
          | inr clear ↦ elim (Bool-cases (contains b.foods next)) [
            | inl food ↦ inr (
              record { inside = inside; clear = clear },
              inl (
                  rw (move_to-eat draws b next inside clear food)
                    (eat-Eating b next skipped p later taken free food)),
            )
            | inr no_food ↦ inr (
              record { inside = inside; clear = clear },
              inr (
                  rw (move_to-move draws b next inside clear no_food)
                    (crawl-Crawling b next head body draws e no_food)),
            )
          ]
        ]
      ])
