-- ===== src/Base/Threads.antt =====
-- A list of threads, each standing at some point of its program, and sums over them.
use Prim.Native.Nat.{ℕ, zero, suc, ◌+◌, ◌*◌, ◌≤◌, ◌<◌}
use mathlib.Core.Path.{◌≡◌, refl, ap}
use mathlib.Core.List.{List, [], ◌∷◌, ◌++◌}
use mathlib.Core.Option.{Option, none, some}
use native.Mathlib.Omega.{arith}
use native.Mathlib.Decide.{dec_lt}
use c_study.Base.Lists.{length}

module _ {A : Type 0} where
  abbrev pub worker : List A → ℕ → Option A
  worker [] i = none
  worker (p ∷ ps) zero = some p
  worker (p ∷ ps) (suc i) = worker ps i

  abbrev pub set_worker : List A → ℕ → A → List A
  set_worker [] i p = []
  set_worker (q ∷ ps) zero p = p ∷ ps
  set_worker (q ∷ ps) (suc i) p = q ∷ set_worker ps i p

  abbrev pub replicate : ℕ → A → List A
  replicate zero p = []
  replicate (suc n) p = p ∷ replicate n p

module _ {A : Type 0} (w : A → ℕ) where
  unfoldable pub weigh : List A → ℕ
  weigh [] = 0
  weigh (p ∷ ps) = w p + weigh ps

  -- A worker that moves from `p` to `p'` changes the sum by their difference.
  pub weigh-set_worker :
      (ps : List A) (i : ℕ) (p p' : A)
      → worker ps i ≡ some p
      → weigh (set_worker ps i p') + w p ≡ weigh ps + w p'
  unfolding weigh
  weigh-set_worker [] i p p' h = cc
  weigh-set_worker (q ∷ ps) zero p p' h = ground arith
  weigh-set_worker (q ∷ ps) (suc i) p p' h = omega (arith, weigh-set_worker ps i p p' h)

  pub weigh-worker : (ps : List A) (i : ℕ) (p : A) → worker ps i ≡ some p → w p ≤ weigh ps
  unfolding weigh
  weigh-worker [] i p h = cc
  weigh-worker (q ∷ ps) zero p h = ground arith
  weigh-worker (q ∷ ps) (suc i) p h = omega (arith, weigh-worker ps i p h)

  -- Somebody has a part in a sum that is not 0.
  pub weigh-positive :
      (ps : List A) → 0 < weigh ps → (i : ℕ) × (p : A) × (worker ps i ≡ some p) × (0 < w p)
  unfolding weigh
  weigh-positive [] h = absurd (omega arith)
  weigh-positive (p ∷ ps) h = elim (dec_lt 0 (w p)) [
    | yes g ↦ (0, p, refl, g)
    | no g ↦ let (i, q, e, k) = weigh-positive ps (omega arith) in (suc i, q, e, k)
  ]

  pub weigh-replicate : (n : ℕ) (p : A) → weigh (replicate n p) ≡ n * w p
  unfolding weigh
  weigh-replicate zero p = omega arith
  weigh-replicate (suc n) p = omega (arith, weigh-replicate n p)

pub length-set_worker :
    {A : Type 0} (ps : List A) (i : ℕ) (p : A) → length (set_worker ps i p) ≡ length ps
length-set_worker [] i p = refl
length-set_worker (q ∷ ps) zero p = refl
length-set_worker (q ∷ ps) (suc i) p = omega (arith, length-set_worker ps i p)

pub weigh-le :
    {A : Type 0} (w v : A → ℕ) → ((p : A) → w p ≤ v p) → (ps : List A) → weigh w ps ≤ weigh v ps
unfolding weigh
weigh-le w v h [] = omega arith
weigh-le w v h (p ∷ ps) = omega (arith, h p, weigh-le w v h ps)

module _ {A : Type 0} where
  pub worker_append :
      (xs : List A) (p : A) (ys : List A) → worker (xs ++ p ∷ ys) (length xs) ≡ some p
  worker_append [] p ys = refl
  worker_append (x ∷ xs) p ys = worker_append xs p ys

  pub set_worker_append :
      (xs : List A) (p q : A) (ys : List A) → set_worker (xs ++ p ∷ ys) (length xs) q ≡ xs ++ q ∷ ys
  set_worker_append [] p q ys = refl
  set_worker_append (x ∷ xs) p q ys = ap (◌∷◌ x) (set_worker_append xs p q ys)
