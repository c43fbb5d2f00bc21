-- ===== src/Pool/Loops.antt =====
-- The loops of ThreadPoolCreate and ThreadPoolDestory over the threads: which blocks they leave allocated.
use c_study.Base.{
  ℕ, zero, suc, ◌+◌, ◌≤◌, ◌<◌, ◌≡◌, refl, ◌∙◌, ◌⊎◌, inl, inr, List, Bool, true, false, some,
  Bool-cases, arith,
}
use native.Mathlib.Decide.{dec_lt}
use c_study.Pool.Worker.{Pc}
use c_study.Pool.Blocks.{
  Blocks, set_thread, create_thread, create_threads, destroy_thread, destroy_threads,
}

-- The blocks that are no threads.
pub record SameBlocks (a b : Blocks) : Type 0 where
  pub pool : b.pool ≡ a.pool
  pub queue : b.queue ≡ a.queue
  pub semaphore : b.semaphore ≡ a.semaphore
  pub threads : b.threads ≡ a.threads

abbrev pub IsIn : ℕ → ℕ → ℕ → Type 0
IsIn i k j = (i ≤ j) × (j < i + k)

SameBlocks-refl : (a : Blocks) → SameBlocks a a
SameBlocks-refl a = record { pool = refl; queue = refl; semaphore = refl; threads = refl }

SameBlocks-trans : {a b c : Blocks} → SameBlocks a b → SameBlocks b c → SameBlocks a c
SameBlocks-trans u v = record {
  pool = v.pool ∙ u.pool;
  queue = v.queue ∙ u.queue;
  semaphore = v.semaphore ∙ u.semaphore;
  threads = v.threads ∙ u.threads;
}

-- What `k` rounds from `i` on of a loop over ThreadCreate make of the blocks.
pub record Created (gives : Blocks) (k i : ℕ) (live live' : Blocks) : Type 0 where
  pub same : SameBlocks live live'
  pub new : (j : ℕ) → IsIn i k j → gives.thread j ≡ true → live'.thread j ≡ true
  pub old : (j : ℕ) → live.thread j ≡ true → live'.thread j ≡ true
  pub only :
      (j : ℕ)
      → live'.thread j ≡ true
      → (live.thread j ≡ true) ⊎ (IsIn i k j × (gives.thread j ≡ true))

create_thread-Created :
    (gives : Blocks) (i : ℕ) (made : Blocks × List Pc)
    → Created gives 1 i made.0 (create_thread gives i made).0
unfolding create_thread
create_thread-Created gives i (live, ps) = elim (Bool-cases (gives.thread i)) [
  | inl e ↦ rw e (record {
    same = record { pool = refl; queue = refl; semaphore = refl; threads = refl };
    new = λ j h g. ground arith;
    old = λ j g. ground arith;
    only = λ j g. ground arith;
  })
  | inr e ↦ rw e (record {
    same = SameBlocks-refl live;
    new = λ j h g. let q : i ≡ j = omega (arith, h.0, h.1) in cc;
    old = λ j g. g;
    only = λ j g. inl g;
  })
]

pub create_threads-Created :
    (gives : Blocks) (k i : ℕ) (made : Blocks × List Pc)
    → Created gives k i made.0 (create_threads gives k i made).0
unfolding create_threads
create_threads-Created gives zero i made = record {
  same = SameBlocks-refl made.0;
  new = λ j h e. absurd (omega (arith, h.0, h.1));
  old = λ j e. e;
  only = λ j e. inl e;
}
create_threads-Created gives (suc k) i made =
    let a = create_thread-Created gives i made in
    let b = create_threads-Created gives k (i + 1) (create_thread gives i made) in
    record {
      same = SameBlocks-trans a.same b.same;
      new = λ j h e. elim (dec_lt i j) [
        | yes l ↦ b.new j (omega arith, omega (arith, h.1)) e
        | no l ↦ b.old j (a.new j (h.0, omega arith) e)
      ];
      old = λ j e. b.old j (a.old j e);
      only = λ j e. elim (b.only j e) [
        | inl f ↦ elim (a.only j f) [
          | inl g ↦ inl g
          | inr (h, g) ↦ inr ((h.0, omega (arith, h.1)), g)
        ]
        | inr (h, g) ↦ inr ((omega (arith, h.0), omega (arith, h.1)), g)
      ];
    }

-- What `k` rounds from `i` on of the loop over ThreadDestory make of them.
pub record Destroyed (threads : ℕ → Bool) (k i : ℕ) (live live' : Blocks) : Type 0 where
  pub same : SameBlocks live live'
  pub only : (j : ℕ) → live'.thread j ≡ true → live.thread j ≡ true
  pub gone : (j : ℕ) → IsIn i k j → threads j ≡ true → live'.thread j ≡ false

destroy_thread-Destroyed :
    (threads : ℕ → Bool) (i : ℕ) (live : Blocks)
    → (threads i ≡ true → live.thread i ≡ true)
    → (live' : Blocks) × (destroy_thread (threads i) i live ≡ some live')
      × Destroyed threads 1 i live live'
      × ((j : ℕ) → i < j → live'.thread j ≡ live.thread j)
unfolding destroy_thread
destroy_thread-Destroyed threads i live h = elim (Bool-cases (threads i)) [
  | inl e ↦ (
    record live { thread = set_thread live.thread i false },
    rw (e, h e) refl,
    record {
      same = record { pool = refl; queue = refl; semaphore = refl; threads = refl };
      only = λ j g. ground arith;
      gone = λ j l g. let q : j ≡ i = omega (arith, l.0, l.1) in ground arith;
    },
    λ j l. ground arith,
  )
  | inr e ↦ (
    live,
    rw e refl,
    record {
      same = SameBlocks-refl live;
      only = λ j g. g;
      gone = λ j l g. let q : i ≡ j = omega (arith, l.0, l.1) in cc;
    },
    λ j l. refl,
  )
]

pub destroy_threads-Destroyed :
    (threads : ℕ → Bool) (k i : ℕ) (live : Blocks)
    → ((j : ℕ) → IsIn i k j → threads j ≡ true → live.thread j ≡ true)
    → (live' : Blocks) × (destroy_threads threads k i live ≡ some live')
      × Destroyed threads k i live live'
unfolding destroy_threads
destroy_threads-Destroyed threads zero i live h = (
  live,
  refl,
  record {
    same = SameBlocks-refl live;
    only = λ j e. e;
    gone = λ j l e. absurd (omega (arith, l.0, l.1));
  },
)
destroy_threads-Destroyed threads (suc k) i live h =
    let (a, e, d, keep) =
      destroy_thread-Destroyed threads i live (h i (omega arith, omega arith)) in
    let (b, f, c) =
      destroy_threads-Destroyed threads k (i + 1) a
        (λ j l g. keep j (omega (arith, l.0)) ∙ h j (omega (arith, l.0), omega (arith, l.1)) g) in
    (
      b,
      rw e f,
      record {
        same = SameBlocks-trans d.same c.same;
        only = λ j g. d.only j (c.only j g);
        gone = λ j l g. elim (dec_lt i j) [
          | yes m ↦ c.gone j (omega arith, omega (arith, l.1)) g
          | no m ↦ elim (Bool-cases (b.thread j)) [
            | inl x ↦ let y = d.gone j (l.0, omega arith) g in let z = c.only j x in cc
            | inr x ↦ x
          ]
        ];
      },
    )
