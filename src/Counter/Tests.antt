-- ===== src/Counter/Tests.antt =====
-- Two runs of eventfd01.
use c_study.Base.{ℕ, ◌≤◌, ◌<◌, ◌≡◌, refl, List, [], ◌∷◌, ◌++◌, arith}
use c_study.Counter.Processes.{
  limit, writing, finished, System, Step, write, refuse, finish, wake, read, Reach, here, next,
}
use c_study.Counter.Sums.{sum, read-sum}

-- The child is slow, and the parent reads before the second number is written.
abbrev partial : (s : System) × Reach (5 ∷ 7 ∷ []) s
partial =
    (_, next (next (next here (write refl (omega arith))) (wake refl)) (read refl (omega arith)))

partial_runs : (partial.0.parent ≡ finished 5) × (partial.0.child ≡ writing (7 ∷ []))
partial_runs = (refl, refl)

read-sum_example :
    (before : List ℕ) × (rest : List ℕ) × (5 ∷ 7 ∷ [] ≡ before ++ rest)
    × (5 ≡ sum before)
    × (1 ≤ 5)
    × (5 < limit)
read-sum_example = read-sum 5 partial.1 refl

-- The only number is 0.
abbrev nothing : (s : System) × Reach (0 ∷ []) s
nothing = (_, next (next (next here (write refl (omega arith))) (finish refl)) (wake refl))

nothing_stuck : (t : System) → ¬ Step nothing.0 t
nothing_stuck t (write e h) = cc
nothing_stuck t (refuse e h) = cc
nothing_stuck t (finish e) = cc
nothing_stuck t (wake e) = cc
nothing_stuck t (read e h) = omega (arith, h)
