-- ===== src/Snake/Stranded.antt =====
-- snake01/main.cpp: foods that no snake can reach, and the first round.
use mathlib.Core.Path.{subst}
use c_study.Base.{
  ◌≡◌, ◌∙◌, sym, ap, inl, inr, List, [], ◌∷◌, true, false, some, arith, bind_some, Bool-cases,
}
use c_study.Snake.Point.{Action, Point, same, contains, next_point, is_colliding, move}
use c_study.Snake.Board.{
  Board, is_valid_point, contains_in_foods, Drawn, generate_new_food, Moved, eat, move_to,
  move_snake,
}
use c_study.Snake.Cells.{same_iff, contains-append, contains-erase_ne}
use c_study.Snake.Move.{generate_new_food-Placed, all_drawn}
use c_study.Snake.Rules.{eaten, move_to-eat}
use c_study.Snake.Game.{Key, read_next_action, Played, rounds}

-- A food that the snake cannot reach.
pub record Stranded (p : Point) (b : Board) : Type 0 where
  pub off : is_valid_point b p ≡ false
  pub food : contains b.foods p ≡ true

module _ (p : Point) where
  placed-Stranded :
      (draws : List Point) (b : Board) {drawn : Drawn}
      → Stranded p b
      → generate_new_food draws b ≡ some drawn
      → Stranded p drawn.board
  unfolding is_valid_point
  placed-Stranded draws b {drawn} s e =
      let placed = generate_new_food-Placed (λ _. Unit {0}) draws b (all_drawn draws) e in
      subst (Stranded p) (sym placed.board)
        (record { off = s.off; food = ground (arith, contains-append b.foods placed.food p) })

  eaten-Stranded :
      (b : Board) (next : Point)
      → Stranded p b
      → is_valid_point b next ≡ true
      → Stranded p (eaten b next)
  unfolding is_valid_point
  eaten-Stranded b next s inside =
      let other : same next p ≡ false = elim (Bool-cases (same next p)) [
        | inl t ↦ cc (ap (is_valid_point b) ((same_iff next p).0 t))
        | inr f ↦ f
      ] in
      record { off = s.off; food = contains-erase_ne b.foods next p other ∙ s.food }

  move_to-Stranded :
      (draws : List Point) (b : Board) (next : Point) {m : Moved}
      → Stranded p b
      → move_to draws b next ≡ some m
      → Stranded p m.board
  unfolding move_to is_colliding contains_in_foods eat is_valid_point
  move_to-Stranded draws b next {m} s e = elim (Bool-cases (is_valid_point b next)) [
    | inl inside ↦ elim (Bool-cases (contains b.snake.points next)) [
      | inl hit ↦ let stays : b ≡ m.board = ground arith in subst (Stranded p) stays s
      | inr clear ↦ elim (Bool-cases (contains b.foods next)) [
        | inl food ↦
            let (drawn, ed, em) =
              bind_some (generate_new_food draws (eaten b next)) _
                (sym (move_to-eat draws b next inside clear food) ∙ e) in
            let grown : drawn.board ≡ m.board = cc em in
            subst (Stranded p) grown
              (placed-Stranded draws (eaten b next) (eaten-Stranded b next s inside) ed)
        | inr no_food ↦
            let moved : record b { snake = move b.snake next } ≡ m.board = ground arith in
            subst (Stranded p) moved (record { off = s.off; food = s.food })
      ]
    ]
    | inr off ↦ let stays : b ≡ m.board = ground arith in subst (Stranded p) stays s
  ]

-- A food on the row below the board or on the column to the right of it, both of which the distributions
-- of Board can draw, or anywhere else off the board, is never eaten: it is still there after any number
-- of rounds.
rounds-Stranded :
    (p : Point) (keys : List Key) (action : Action) (draws : List Point) (b : Board) {r : Played}
    → Stranded p b
    → rounds keys action draws b ≡ some r
    → Stranded p r.board
unfolding rounds move_snake
rounds-Stranded p [] action draws b {r} s e =
    let start : Played = record { over = false; board = b; action = action; draws = draws } in
    let returned : start ≡ r = cc e in subst (λ (q : Played). Stranded p q.board) returned s
rounds-Stranded p (key ∷ keys) action draws b {r} s e =
    let action' = read_next_action action key in
    let (m, called, later) = bind_some (move_snake action' draws b) _ e in
    let (next, _, moved) = bind_some (next_point b.snake action') _ called in
    let after = move_to-Stranded p draws b next s moved in
    elim (Bool-cases m.moved) [
      | inl t ↦
          let rest : rounds keys action' m.draws m.board ≡ some r = ground arith in
          rounds-Stranded p keys action' m.draws m.board after rest
      | inr f ↦
          let last : Played = record {
            over = true;
            board = m.board;
            action = action';
            draws = m.draws;
          } in
          let returned : last ≡ r = ground arith in
          subst (λ (q : Played). Stranded p q.board) returned after
    ]
