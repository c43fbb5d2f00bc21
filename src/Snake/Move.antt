-- ===== src/Snake/Move.antt =====
-- snake01/main.cpp: what GenerateNewFood and MoveSnake do on a valid board.
use mathlib.Core.Path.{subst}
use c_study.Base.{
  ◌≡◌, refl, sym, ap, inl, inr, List, [], ◌∷◌, ◌++◌, Bool, true, false, none, some, arith, All,
  ◌||◌, Bool-cases,
}
use c_study.Snake.Point.{Point, contains}
use c_study.Snake.Board.{Board, Drawn, generate_new_food}

-- A cell that the snake or a food holds.
unfoldable pub is_taken : Board → Point → Bool
is_taken b p = contains b.snake.points p || contains b.foods p

-- GenerateNewFood passes over the draws that are taken and places the first one that is free. As long
-- as every draw is taken it does not end.
pub generate_new_food_lem :
    (b : Board) (skipped : List Point) (p : Point) (later : List Point)
    → All (λ q. is_taken b q ≡ true) skipped
    → is_taken b p ≡ false
    → (generate_new_food (skipped ++ p ∷ later) b
        ≡ some (record { board = record b { foods = b.foods ++ p ∷ [] }; draws = later }))
      × (generate_new_food skipped b ≡ none)
unfolding generate_new_food is_taken
generate_new_food_lem b [] p later h f = (ground arith, refl)
generate_new_food_lem b (q ∷ skipped) p later h f =
    let (found, runs) = generate_new_food_lem b skipped p later h.1 f in
    (ground (arith, found), ground (arith, runs))

generate_new_food-free :
    (q : Point) (draws : List Point) (b : Board)
    → is_taken b q ≡ false
    → generate_new_food (q ∷ draws) b
      ≡ some (record { board = record b { foods = b.foods ++ q ∷ [] }; draws = draws })
unfolding generate_new_food is_taken
generate_new_food-free q draws b f = ground arith

-- What a GenerateNewFood that ends has placed: one of its draws, which was free.
pub record Placed {ℓ} (P : Point → Type ℓ) (b : Board) (drawn : Drawn) : Type ℓ where
  pub food : Point
  pub drawable : P food
  pub free : is_taken b food ≡ false
  pub board : drawn.board ≡ record b { foods = b.foods ++ food ∷ [] }
  pub draws : All P drawn.draws

pub generate_new_food-Placed {ℓ} :
    (P : Point → Type ℓ) (draws : List Point) (b : Board) {drawn : Drawn}
    → All P draws
    → generate_new_food draws b ≡ some drawn
    → Placed P b drawn
unfolding generate_new_food is_taken
generate_new_food-Placed P [] b a e = cc
generate_new_food-Placed P (q ∷ draws) b {drawn} a e = elim (Bool-cases (is_taken b q)) [
  | inl t ↦ generate_new_food-Placed P draws b a.1 (ground arith)
  | inr f ↦
      let first : drawn ≡ record { board = record b { foods = b.foods ++ q ∷ [] }; draws = draws } =
        cc (generate_new_food-free q draws b f) in
      record {
        food = q;
        drawable = a.0;
        free = f;
        board = ap (λ d. d.board) first;
        draws = subst (λ d. All P d.draws) (sym first) a.1;
      }
]

pub all_drawn : (draws : List Point) → All (λ _. Unit {0}) draws
all_drawn [] = tt
all_drawn (q ∷ draws) = (tt, all_drawn draws)
