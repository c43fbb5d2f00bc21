-- ===== src/Pool/System.antt =====
-- The pool, its workers and the thread that calls ThreadPoolCreate, ThreadPoolAddTask and
-- ThreadPoolDestory of thread_pool02/thread_pool.c.
use c_study.Base.{ℕ, ◌+◌, ◌≡◌, ◌<◌, List, [], ◌∷◌, ◌++◌, true, false, some}
use c_study.Base.Threads.{worker, set_worker, replicate}
use c_study.Pool.Worker.{ThreadPool, Pc, starting, Work}

pub data Client : Type 0 where
  creating : Client  -- in the loop `while (pool->alive_threads != num_threads)`
  serving : Client  -- between ThreadPoolCreate and ThreadPoolDestory
  destroying : Client  -- in the loop `while (pool->alive_threads > 0)`
  freed : Client  -- after the pool was released

pub record System : Type 0 where
  pub pool : ThreadPool
  pub workers : List Pc
  pub client : Client

-- ThreadPoolCreate up to its last loop.
abbrev pub init : ℕ → System
init num_threads = record {
  pool = record {
    thread_num = num_threads;
    alive_threads = 0;
    working_threads = 0;
    jobs = [];
    has_job = false;
    alive = true;
    submitted = 0;
    finished = 0;
  };
  workers = replicate num_threads starting;
  client = creating;
}

-- JobQueuePush with the post of the semaphore.
unfoldable pub add_task : ThreadPool → ℕ → ThreadPool
add_task s j = record s { jobs = s.jobs ++ j ∷ []; has_job = true; submitted = s.submitted + 1 }

pub data Step (s : System) : System → Type 0 where
  work :
      (i : ℕ) {p p' : Pc} {pool : ThreadPool}
      → worker s.workers i ≡ some p
      → Work s.pool p pool p'
      → Step s (record s { pool = pool; workers = set_worker s.workers i p' })
  created :
      s.client ≡ creating
      → s.pool.alive_threads ≡ s.pool.thread_num
      → Step s (record s { client = serving })
  submit : (j : ℕ) → s.client ≡ serving → Step s (record s { pool = add_task s.pool j })
  destroy :
      s.client ≡ serving
      → Step s (record s { pool = record s.pool { alive = false }; client = destroying })
  post_all :
      s.client ≡ destroying
      → 0 < s.pool.alive_threads
      → Step s (record s { pool = record s.pool { has_job = true } })
  release :
      s.client ≡ destroying
      → s.pool.alive_threads ≡ 0
      → Step s (record s { pool = record s.pool { jobs = []; has_job = false }; client = freed })

pub data Reach (n : ℕ) : System → Type 0 where
  here : Reach n (init n)
  next : {s t : System} → Reach n s → Step s t → Reach n t
