-- ===== src/TaskPool/Worker.antt =====
-- thread_pool01/thread_pool.c, Worker: one thread, step by step. What a thread does from
-- pthread_mutex_lock to pthread_mutex_unlock or pthread_cond_wait is one step, but for the way out of the
-- loop: a thread that leaves by `while (tp->running)` has not locked the mutex, so the read and the write
-- of `--tp->thread_count`, the signal and the unlock are steps of their own there. POSIX leaves undefined what
-- it is to unlock a mutex that the thread has not locked; here this either has no effect or takes the mutex
-- from the thread that holds it on its way out. The other sections stay whole.
use c_study.Base.{ℕ, ◌+◌, ◌-◌, ◌≡◌, List, ◌∷◌, Bool, true, false, ◌&&◌, ◌||◌, not, ltb}

-- `struct ThreadPool`. `tasks` is the list of tasks, first to last, and `held` says that a thread on its
-- way out holds the mutex. `submitted` and `finished` count the tasks that ThreadPoolAddTask took and that
-- have run.
pub record ThreadPool : Type 0 where
  pub tasks : List ℕ
  pub held : Bool
  pub working_count : ℕ
  pub thread_count : ℕ
  pub running : Bool
  pub submitted : ℕ
  pub finished : ℕ

-- Where a thread stands in Worker. `locked` says that it left the loop by `break`, with the mutex.
pub data Pc : Type 0 where
  testing : Pc  -- at `while (tp->running)`
  locking : Pc  -- before the first pthread_mutex_lock, or in pthread_cond_wait
  performing : (task : ℕ) → Pc  -- before `task->func(task->arg)`
  finishing : Pc  -- before the second pthread_mutex_lock
  leaving : (locked : Bool) → Pc  -- before `--tp->thread_count`
  storing : (locked : Bool) → (count : ℕ) → Pc  -- after its read, before its write
  signalling : (locked : Bool) → Pc  -- before the last pthread_cond_signal
  unlocking : (locked : Bool) → Pc  -- before the last pthread_mutex_unlock
  returned : Pc

-- One step of a thread: the pool and the thread before, the pool and the thread after. When
-- `thread_count` is read it is at least 1.
pub data Work (s : ThreadPool) : Pc → ThreadPool → Pc → Type 0 where
  loop : s.running ≡ true → Work s testing s locking
  stop : s.running ≡ false → Work s testing s (leaving false)
  take :
      {task : ℕ} {tasks : List ℕ}
      → s.held ≡ false
      → s.running ≡ true
      → s.tasks ≡ task ∷ tasks
      → Work s locking
          (record s { tasks = tasks; working_count = s.working_count + 1 })
          (performing task)
  break :
      s.held ≡ false → s.running ≡ false → Work s locking (record s { held = true }) (leaving true)
  perform : {task : ℕ} → Work s (performing task) (record s { finished = s.finished + 1 }) finishing
  finish :
      s.held ≡ false → Work s finishing (record s { working_count = s.working_count - 1 }) testing
  read : {locked : Bool} → Work s (leaving locked) s (storing locked s.thread_count)
  write :
      {locked : Bool} {count : ℕ}
      → Work s (storing locked count) (record s { thread_count = count - 1 }) (signalling locked)
  signal : {locked : Bool} → Work s (signalling locked) s (unlocking locked)
  unlock : Work s (unlocking true) (record s { held = false }) returned
  unlock_unheld : Work s (unlocking false) s returned
  unlock_other : Work s (unlocking false) (record s { held = false }) returned

-- The test of ThreadPoolWait fails, and it returns.
unfoldable pub wait_returns : ThreadPool → Bool
wait_returns s =
    not ((s.running && ltb 0 s.working_count) || (not s.running && ltb 0 s.thread_count))
