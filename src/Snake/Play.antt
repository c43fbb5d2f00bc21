-- ===== src/Snake/Play.antt =====
-- snake01/main.cpp: whole games.
use mathlib.Core.Path.{subst}
use c_study.Base.{
  ℕ, zero, suc, ◌+◌, ◌≤◌, ◌<◌, ◌≡◌, refl, ◌∙◌, sym, List, [], ◌∷◌, true, false, some, arith, length,
  length-append, All, bind_some, Bool-cases, inl, inr,
}
use c_study.Snake.Point.{Action, right, Point, same, contains, next_point}
use c_study.Snake.Board.{
  Board, below, is_valid_point, Drawn, generate_new_food, Moved, move_snake, place_foods, new_board,
}
use c_study.Snake.Move.{generate_new_food-Placed}
use c_study.Snake.Invariant.{IsDrawable, IsValid, placed-IsValid, Kept, move_to-Kept}
use c_study.Snake.Game.{Key, read_next_action, Played, rounds, food_count, init_snake, main}

-- What holds after some rounds from the board `b`.
pub record Sound (n max_y max_x : ℕ) (b : Board) (left_draws : List Point) : Type 0 where
  pub valid : IsValid b
  pub foods : length b.foods ≡ n
  pub long : 2 ≤ length b.snake.points
  pub rows : b.rows ≡ max_y
  pub columns : b.columns ≡ max_x
  pub draws : All (IsDrawable max_y max_x) left_draws

move_snake-Kept :
    (action : Action) (draws : List Point) (b : Board) {m : Moved}
    → IsValid b
    → All (IsDrawable b.rows b.columns) draws
    → move_snake action draws b ≡ some m
    → Kept b m
unfolding move_snake
move_snake-Kept action draws b v a e =
    let (next, _, moved) = bind_some (next_point b.snake action) _ e in
    move_to-Kept draws b next v a moved

module _ (n max_y max_x : ℕ) where
  move_snake-Sound :
      (action : Action) (draws : List Point) (b : Board) {m : Moved}
      → Sound n max_y max_x b draws
      → move_snake action draws b ≡ some m
      → Sound n max_y max_x m.board m.draws
  move_snake-Sound action draws b s e =
      let near : All (IsDrawable b.rows b.columns) draws = rw (s.rows, s.columns) s.draws in
      let k = move_snake-Kept action draws b s.valid near e in
      record {
        valid = k.valid;
        foods = k.foods ∙ s.foods;
        long = omega (arith, k.long, s.long);
        rows = k.rows ∙ s.rows;
        columns = k.columns ∙ s.columns;
        draws = rw (s.rows, s.columns) at k.draws;
      }

  rounds-Sound :
      (keys : List Key) (action : Action) (draws : List Point) (b : Board) {r : Played}
      → Sound n max_y max_x b draws
      → rounds keys action draws b ≡ some r
      → Sound n max_y max_x r.board r.draws
  unfolding rounds
  rounds-Sound [] action draws b {r} s e =
      let start : Played = record { over = false; board = b; action = action; draws = draws } in
      let returned : start ≡ r = cc e in
      subst (λ (q : Played). Sound n max_y max_x q.board q.draws) returned s
  rounds-Sound (key ∷ keys) action draws b {r} s e =
      let (m, called, later) = bind_some (move_snake (read_next_action action key) draws b) _ e in
      let next = move_snake-Sound (read_next_action action key) draws b s called in
      elim (Bool-cases m.moved) [
        | inl t ↦
            let rest : rounds keys (read_next_action action key) m.draws m.board ≡ some r =
              ground arith in
            rounds-Sound keys (read_next_action action key) m.draws m.board next rest
        | inr f ↦
            let last : Played = record {
              over = true;
              board = m.board;
              action = read_next_action action key;
              draws = m.draws;
            } in
            let returned : last ≡ r = ground arith in
            subst (λ (q : Played). Sound n max_y max_x q.board q.draws) returned next
      ]

module _ (max_y max_x : ℕ) where
  placed-Sound :
      {n : ℕ} (draws : List Point) (b : Board) {drawn : Drawn}
      → Sound n max_y max_x b draws
      → generate_new_food draws b ≡ some drawn
      → Sound (suc n) max_y max_x drawn.board drawn.draws
  placed-Sound {n} draws b {drawn} s e =
      let placed = generate_new_food-Placed (IsDrawable max_y max_x) draws b s.draws e in
      let near : IsDrawable b.rows b.columns placed.food = rw (s.rows, s.columns) placed.drawable in
      subst (λ (c : Board). Sound (suc n) max_y max_x c drawn.draws) (sym placed.board)
        (record {
          valid = placed-IsValid b placed.food s.valid placed.free near;
          foods = omega (arith, length-append b.foods (placed.food ∷ []), s.foods);
          long = s.long;
          rows = s.rows;
          columns = s.columns;
          draws = placed.draws;
        })

  place_foods-Sound :
      (k : ℕ) {n : ℕ} (draws : List Point) (b : Board) {drawn : Drawn}
      → Sound n max_y max_x b draws
      → place_foods k draws b ≡ some drawn
      → Sound (n + k) max_y max_x drawn.board drawn.draws
  unfolding place_foods
  place_foods-Sound zero {n} draws b {drawn} s e =
      let start : Drawn = record { board = b; draws = draws } in
      let returned : start ≡ drawn = cc e in
      subst (λ (d : Drawn). Sound (n + 0) max_y max_x d.board d.draws) returned
        (subst (λ m. Sound m max_y max_x b draws) (omega arith) s)
  place_foods-Sound (suc k) {n} draws b {drawn} s e =
      let (d, first, later) = bind_some (generate_new_food draws b) _ e in
      let more = place_foods-Sound k d.draws d.board (placed-Sound draws b s first) later in
      subst (λ m. Sound m max_y max_x drawn.board drawn.draws) (omega arith) more

  init-Sound :
      3 < max_y
      → 2 < max_x
      → (draws : List Point) → All (IsDrawable max_y max_x) draws
      → Sound 0 max_y max_x
          (record { snake = init_snake; foods = []; rows = max_y; columns = max_x })
          draws
  unfolding contains same is_valid_point below
  init-Sound h k draws a = record {
    valid = record {
      distinct = (refl, (refl, tt));
      inside = (ground arith, (ground arith, tt));
      foods_distinct = tt;
      apart = tt;
      drawable = tt;
    };
    foods = refl;
    long = omega arith;
    rows = refl;
    columns = refl;
    draws = a;
  }

-- On a screen of more than three rows and more than two columns, whatever keys are pressed and whatever
-- points are drawn: after any number of rounds that end, the board is valid and has six foods, and the
-- snake has at least the two cells that it began with.
pub main-Sound :
    (max_y max_x : ℕ) (keys : List Key) (draws : List Point) {r : Played}
    → 3 < max_y
    → 2 < max_x
    → All (IsDrawable max_y max_x) draws
    → main max_y max_x keys draws ≡ some r
    → Sound 6 max_y max_x r.board r.draws
unfolding main new_board
main-Sound max_y max_x keys draws h k a e =
    let (d, placed, played) = bind_some (new_board init_snake max_y max_x food_count draws) _ e in
    let s = place_foods-Sound max_y max_x 6 draws _ (init-Sound max_y max_x h k draws a) placed in
    rounds-Sound 6 max_y max_x keys right d.draws d.board s played
