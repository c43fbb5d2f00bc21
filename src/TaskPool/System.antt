-- ===== src/TaskPool/System.antt =====
-- The pool of thread_pool01/thread_pool.c, its threads, and the thread that calls ThreadPoolAddTask and
-- ThreadPoolDestory.
use c_study.Base.{ℕ, ◌+◌, ◌≡◌, List, [], ◌∷◌, ◌++◌, true, false, some}
use c_study.Base.Threads.{worker, set_worker, replicate}
use c_study.TaskPool.Worker.{ThreadPool, Pc, testing, Work, wait_returns}

pub data Client : Type 0 where
  serving : Client  -- between ThreadPoolCreate and ThreadPoolDestory
  destroying : Client  -- in the ThreadPoolWait of ThreadPoolDestory
  freed : Client  -- after `free(tp)`

pub record System : Type 0 where
  pub pool : ThreadPool
  pub workers : List Pc
  pub client : Client

-- ThreadPoolCreate
abbrev pub init : ℕ → System
init num = record {
  pool = record {
    tasks = [];
    held = false;
    working_count = 0;
    thread_count = num;
    running = true;
    submitted = 0;
    finished = 0;
  };
  workers = replicate num testing;
  client = serving;
}

-- ThreadPoolAddTask, on the list
unfoldable pub append_task : ThreadPool → ℕ → ThreadPool
append_task s task = record s { tasks = s.tasks ++ task ∷ []; submitted = s.submitted + 1 }

-- The first critical section of ThreadPoolDestory. It leaves `task_list` at the released tasks, where
-- nothing reads it any more.
unfoldable pub shut_down : ThreadPool → ThreadPool
shut_down s = record s { tasks = []; running = false }

pub data Step (s : System) : System → Type 0 where
  work :
      (i : ℕ) {p p' : Pc} {pool : ThreadPool}
      → worker s.workers i ≡ some p
      → Work s.pool p pool p'
      → Step s (record s { pool = pool; workers = set_worker s.workers i p' })
  submit :
      (task : ℕ)
      → s.client ≡ serving
      → s.pool.held ≡ false
      → Step s (record s { pool = append_task s.pool task })
  destroy :
      s.client ≡ serving
      → s.pool.held ≡ false
      → Step s (record s { pool = shut_down s.pool; client = destroying })
  release :
      s.client ≡ destroying
      → s.pool.held ≡ false
      → wait_returns s.pool ≡ true
      → Step s (record s { client = freed })

pub data Reach (num : ℕ) : System → Type 0 where
  here : Reach num (init num)
  next : {s t : System} → Reach num s → Step s t → Reach num t
