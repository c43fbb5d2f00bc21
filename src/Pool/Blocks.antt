-- ===== src/Pool/Blocks.antt =====
-- The blocks that ThreadPoolCreate of thread_pool02/thread_pool.c allocates, with JobQueueCreate,
-- BinarySemaphoreCreate and ThreadCreate, and that ThreadPoolDestory releases. `none` is the release of a block
-- that is not allocated.
use c_study.Base.{
  ℕ, zero, suc, ◌+◌, List, [], ◌∷◌, Bool, true, false, Option, none, some, ◌==◌, if◌then◌else◌,
  ◌>>=◌,
}
use c_study.Pool.Worker.{Pc, starting}
use c_study.Pool.System.{System, init}

-- One flag for each block: whether its `malloc` succeeds, or whether it is allocated. `thread` is by `id`.
pub record Blocks : Type 0 where
  pub pool : Bool
  pub queue : Bool
  pub semaphore : Bool
  pub threads : Bool
  pub thread : ℕ → Bool

abbrev pub no_blocks : Blocks
no_blocks = record {
  pool = false;
  queue = false;
  semaphore = false;
  threads = false;
  thread = λ i. false;
}

-- JobQueueCreate: whether it returns a queue, and the blocks then.
unfoldable pub create_queue : Blocks → Blocks → Bool × Blocks
create_queue gives live =
    if gives.queue
    then (if gives.semaphore
        then (true, record live { queue = true; semaphore = true })
        else (false, record live { queue = true }))
    else (false, live)

abbrev pub set_thread : (ℕ → Bool) → ℕ → Bool → ℕ → Bool
set_thread thread id b i = if i == id then b else thread i

-- ThreadCreate, whose pthread_create is taken to succeed: the blocks, and the threads that run.
unfoldable pub create_thread : Blocks → ℕ → Blocks × List Pc → Blocks × List Pc
create_thread gives id (live, workers) =
    if gives.thread id
    then (record live { thread = set_thread live.thread id true }, starting ∷ workers)
    else (live, workers)

-- The loop over `i`, from `i` on for `k` rounds.
unfoldable pub create_threads : Blocks → ℕ → ℕ → Blocks × List Pc → Blocks × List Pc
unfolding create_thread
create_threads gives zero i made = made
create_threads gives (suc k) i made = create_threads gives k (i + 1) (create_thread gives i made)

unfoldable pub free_pool : Blocks → Option Blocks
free_pool live = if live.pool then some (record live { pool = false }) else none

unfoldable pub free_threads : Blocks → Option Blocks
free_threads live = if live.threads then some (record live { threads = false }) else none

-- JobQueueDestory, without the jobs that JobQueueClear releases.
unfoldable pub destroy_queue : Blocks → Option Blocks
destroy_queue live =
    if live.semaphore
    then (if live.queue then some (record live { semaphore = false; queue = false }) else none)
    else none

-- ThreadDestory of `pool->threads[id]`, which may be NULL.
unfoldable pub destroy_thread : Bool → ℕ → Blocks → Option Blocks
destroy_thread false id live = some live
destroy_thread true id live =
    if live.thread id then some (record live { thread = set_thread live.thread id false }) else none

-- The loop over `i`, from `i` on for `k` rounds; `threads` says which pointers are not NULL.
unfoldable pub destroy_threads : (ℕ → Bool) → ℕ → ℕ → Blocks → Option Blocks
unfolding destroy_thread
destroy_threads threads zero i live = some live
destroy_threads threads (suc k) i live = do
  live' ← destroy_thread (threads i) i live
  destroy_threads threads k (i + 1) live'

-- A pool as ThreadPoolCreate has it before its last loop, with which pointers of `threads` are not NULL.
pub record Made : Type 0 where
  pub system : System
  pub threads : ℕ → Bool

-- ThreadPoolCreate up to its last loop: the pool, with `none` for NULL, and the blocks.
unfoldable pub create_with_queue : Blocks → ℕ → Bool × Blocks → Option (Option Made × Blocks)
unfolding create_threads free_pool destroy_queue
create_with_queue gives num_threads (false, live) = do live' ← free_pool live; some (none, live')
create_with_queue gives num_threads (true, live) =
    if gives.threads
    then (let (live', workers) =
          create_threads gives num_threads 0 (record live { threads = true }, []) in
        some (
          some (record {
            system = record (init num_threads) { workers = workers };
            threads = gives.thread;
          }),
          live',
        ))
    else (do live' ← destroy_queue live; live'' ← free_pool live'; some (none, live''))

unfoldable pub create_pool : Blocks → ℕ → Option (Option Made × Blocks)
unfolding create_queue create_with_queue
create_pool gives num_threads =
    if gives.pool
    then create_with_queue gives num_threads (create_queue gives (record no_blocks { pool = true }))
    else some (none, no_blocks)

-- ThreadPoolDestory from JobQueueDestory on.
unfoldable pub destroy_pool : Made → Blocks → Option Blocks
unfolding destroy_queue destroy_threads free_threads free_pool
destroy_pool made live = do
  live' ← destroy_queue live
  live'' ← destroy_threads made.threads made.system.pool.thread_num 0 live'
  live''' ← free_threads live''
  free_pool live'''
