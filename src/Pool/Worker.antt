-- ===== src/Pool/Worker.antt =====
-- thread_pool02/thread_pool.c, Worker: one worker thread, step by step. What a thread does while it
-- holds a mutex is one step, but for the last section of Worker: the write to `alive_threads` and the
-- unlock after it are two, since ThreadPoolDestory reads `alive_threads` without the mutex.
use c_study.Base.{
  ℕ, ◌+◌, ◌-◌, ◌≡◌, List, [], ◌∷◌, Bool, true, false, Option, none, some, ◌&&◌, ◌==◌, length,
}

-- `struct ThreadPool`. `jobs` are the jobs in the queue, first to last, and `has_job` is the flag of its
-- semaphore. `submitted` and `finished` count the tasks that ThreadPoolAddTask took and that have run.
pub record ThreadPool : Type 0 where
  pub thread_num : ℕ
  pub alive_threads : ℕ
  pub working_threads : ℕ
  pub jobs : List ℕ
  pub has_job : Bool
  pub alive : Bool
  pub submitted : ℕ
  pub finished : ℕ

-- Where a worker stands in Worker.
pub data Pc : Type 0 where
  starting : Pc  -- before `alive_threads += 1`
  testing : Pc  -- at `while (pool->alive)`
  waiting : Pc  -- in BinarySemaphoreWait
  checking : Pc  -- at `if (pool->alive)`
  entering : Pc  -- before `working_threads += 1`
  pulling : Pc  -- before JobQueuePull
  running : (task : Option ℕ) → Pc  -- before `task->func(task->arg)`
  finishing : Pc  -- before `working_threads -= 1`
  exiting : Pc  -- before `alive_threads -= 1`
  unlocking : Pc  -- before the last pthread_mutex_unlock
  returned : Pc

-- JobQueuePull on the list that the queue holds: a post if two jobs or more were there.
unfoldable pub pull : ThreadPool → List ℕ → Option ℕ × ThreadPool
pull s [] = (none, s)
pull s (j ∷ []) = (some j, record s { jobs = [] })
pull s (j ∷ k ∷ js) = (some j, record s { jobs = k ∷ js; has_job = true })

-- One step of a worker: the pool and the worker before, the pool and the worker after.
pub data Work (s : ThreadPool) : Pc → ThreadPool → Pc → Type 0 where
  start : Work s starting (record s { alive_threads = s.alive_threads + 1 }) testing
  loop : s.alive ≡ true → Work s testing s waiting
  stop : s.alive ≡ false → Work s testing s exiting
  wake : s.has_job ≡ true → Work s waiting s checking
  go : s.alive ≡ true → Work s checking s entering
  skip : s.alive ≡ false → Work s checking s testing
  enter : Work s entering (record s { working_threads = s.working_threads + 1 }) pulling
  take : Work s pulling (pull s s.jobs).1 (running (pull s s.jobs).0)
  perform : {j : ℕ} → Work s (running (some j)) (record s { finished = s.finished + 1 }) finishing
  no_task : Work s (running none) s finishing
  finish : Work s finishing (record s { working_threads = s.working_threads - 1 }) testing
  leave : Work s exiting (record s { alive_threads = s.alive_threads - 1 }) unlocking
  unlock : Work s unlocking s returned

-- The test of ThreadPoolWait fails, and it returns.
unfoldable pub wait_returns : ThreadPool → Bool
wait_returns s = length s.jobs == 0 && s.working_threads == 0
