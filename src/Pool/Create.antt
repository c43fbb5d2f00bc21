-- ===== src/Pool/Create.antt =====
-- ThreadPoolCreate and ThreadPoolDestory: which blocks they leave allocated.
use c_study.Base.{
  ◌<◌, ℕ, ◌≡◌, refl, ◌∙◌, ◌⊎◌, inl, inr, [], true, false, none, some, ◌&&◌, not, Bool-cases,
}
use c_study.Pool.System.{init}
use c_study.Pool.Blocks.{
  Blocks, no_blocks, create_queue, create_threads, free_pool, free_threads, destroy_queue, Made,
  create_with_queue, create_pool, destroy_pool,
}
use c_study.Pool.Started.{create_pool-init}
use c_study.Pool.Loops.{Created, create_threads-Created, destroy_threads-Destroyed}

abbrev pub AreReleased : Blocks → Type 0
AreReleased live =
    (live.pool ≡ false)
    × (live.queue ≡ false)
    × (live.semaphore ≡ false)
    × (live.threads ≡ false)
    × ((i : ℕ) → live.thread i ≡ false)

all_released : AreReleased no_blocks
all_released = (refl, refl, refl, refl, λ i. refl)

-- The blocks of a queue that JobQueueCreate has made.
abbrev with_queue : Blocks
with_queue = record no_blocks { pool = true; queue = true; semaphore = true }

-- Where all threads that run are in the array, ThreadPoolDestory releases all blocks.
destroy_pool-AreReleased :
    (gives : Blocks) (made : Made) (n : ℕ) (live : Blocks)
    → made.threads ≡ gives.thread
    → made.system.pool.thread_num ≡ n
    → Created gives n 0 (record with_queue { threads = true }) live
    → (live' : Blocks) × (destroy_pool made live ≡ some live') × AreReleased live'
unfolding destroy_pool destroy_queue free_threads free_pool
destroy_pool-AreReleased gives made n live e f c =
    let without : Blocks = record live { semaphore = false; queue = false } in
    let (a, g, d) = destroy_threads-Destroyed gives.thread n 0 without (λ j l h. c.new j l h) in
    let u = c.same in
    let v = d.same in
    let t : a.threads ≡ true = v.threads ∙ u.threads in
    let q : a.pool ≡ true = v.pool ∙ u.pool in
    (
      record a { threads = false; pool = false },
      rw (u.semaphore, u.queue, e, f) (rw g (rw (t, q) refl)),
      (
        refl,
        v.queue,
        v.semaphore,
        refl,
        λ j. elim (Bool-cases (a.thread j)) [
          | inl x ↦ elim (c.only j (d.only j x)) [ inl y ↦ cc | inr (l, y) ↦ d.gone j l y ]
          | inr x ↦ x
        ],
      ),
    )

abbrev pub Makes : Blocks → ℕ → Type 0
Makes gives num_threads =
    (gives.pool && gives.queue && gives.semaphore && gives.threads ≡ true)
    × (made : Made) × (live live' : Blocks) × (create_pool gives num_threads
        ≡ some (some made, live))
    × (made.system ≡ init num_threads)
    × (destroy_pool made live ≡ some live')
    × AreReleased live'

abbrev pub Fails : Blocks → ℕ → Type 0
Fails gives num_threads =
    (gives.pool && gives.queue && gives.semaphore && gives.threads ≡ false)
    × (live : Blocks) × (create_pool gives num_threads ≡ some (none, live))
    × (live.queue ≡ gives.pool && gives.queue && not gives.semaphore)
    × AreReleased (record live { queue = false })

-- Where no allocation of ThreadCreate fails: if the allocations of the pool, of its queue, of the queue's
-- semaphore and of the array all succeed, ThreadPoolCreate comes to its last loop with the initial state of a
-- pool with all its threads, and what ThreadPoolDestory does from JobQueueDestory on releases every block, each
-- of them once. If one of these four fails, ThreadPoolCreate returns NULL and every block is released but one:
-- if it is that of the semaphore, the block of the queue stays allocated.
pub create_pool-destroy_pool :
    (gives : Blocks) (num_threads : ℕ)
    → ((id : ℕ) → id < num_threads → gives.thread id ≡ true)
    → Makes gives num_threads ⊎ Fails gives num_threads
unfolding create_pool create_queue create_with_queue free_pool destroy_queue
create_pool-destroy_pool gives n all = elim (Bool-cases gives.pool) [
  | inr p ↦ inr (rw p refl, no_blocks, rw p refl, rw p refl, all_released)
  | inl p ↦ elim (Bool-cases gives.queue) [
    | inr q ↦ inr (rw (p, q) refl, no_blocks, rw (p, q) refl, rw (p, q) refl, all_released)
    | inl q ↦ elim (Bool-cases gives.semaphore) [
      | inr m ↦ inr (
        rw (p, q, m) refl,
        record no_blocks { queue = true },
        rw (p, q, m) refl,
        rw (p, q, m) refl,
        all_released,
      )
      | inl m ↦ elim (Bool-cases gives.threads) [
        | inr t ↦
            inr (
              rw (p, q, m, t) refl,
              no_blocks,
              rw (p, q, m, t) refl,
              rw (p, q, m) refl,
              all_released,
            )
        | inl t ↦
            let c = create_threads gives n 0 (record with_queue { threads = true }, []) in
            let made : Made = record {
              system = record (init n) { workers = c.1 };
              threads = gives.thread;
            } in
            let (live', e, r) =
              destroy_pool-AreReleased gives made n c.0 refl refl
                (create_threads-Created gives n 0 (record with_queue { threads = true }, [])) in
            let made_of : create_pool gives n ≡ some (some made, c.0) = rw (p, q, m, t) refl in
            inl (
              rw (p, q, m, t) refl,
              made,
              c.0,
              live',
              made_of,
              create_pool-init gives n made c.0 made_of all,
              e,
              r,
            )
      ]
    ]
  ]
]
