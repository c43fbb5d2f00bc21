-- ===== src/Pool/Waiter.antt =====
-- thread_pool02/thread_pool.c, ThreadPoolWait: the user's thread on the condition variable of the pool.
use c_study.Base.{ℕ, ◌-◌, ◌≡◌, Bool, true, false, some, ◌==◌}
use c_study.Base.Threads.{worker, set_worker}
use c_study.Pool.Worker.{ThreadPool, Pc, Work, finish, wait_returns}
use c_study.Pool.System.{System, serving, Step, init}

-- Where the user's thread stands. Several users do not call the pool at once.
pub data Waiter : Type 0 where
  away : Waiter  -- not in ThreadPoolWait
  looking : Waiter  -- at the test, with the mutex
  asleep : Waiter  -- in pthread_cond_wait

pub record Waiting : Type 0 where
  pub system : System
  pub waiter : Waiter

abbrev pub at_first : ℕ → Waiting
at_first num_threads = record { system = init num_threads; waiter = away }

-- `if (pool->working_threads == 0) pthread_cond_signal(&pool->cond)`
unfoldable pub signals : {s t : ThreadPool} {p p' : Pc} → Work s p t p' → Bool
signals {s} finish = s.working_threads - 1 == 0
signals move = false

-- What a signal does to the user's thread.
unfoldable pub notified : Bool → Waiter → Waiter
notified false w = w
notified true away = away
notified true looking = looking
notified true asleep = looking

pub data Turn (s : Waiting) : Waiting → Type 0 where
  work_on :
      (i : ℕ) {p p' : Pc} {pool : ThreadPool}
      → worker s.system.workers i ≡ some p
      → (move : Work s.system.pool p pool p')
      → Turn s (record {
        system = record s.system { pool = pool; workers = set_worker s.system.workers i p' };
        waiter = notified (signals move) s.waiter;
      })
  -- Any other step of the user.
  use_pool : {t : System} → s.waiter ≡ away → Step s.system t → Turn s (record s { system = t })
  call : s.waiter ≡ away → s.system.client ≡ serving → Turn s (record s { waiter = looking })
  sleep :
      s.waiter ≡ looking
      → wait_returns s.system.pool ≡ false
      → Turn s (record s { waiter = asleep })
  come_back :
      s.waiter ≡ looking → wait_returns s.system.pool ≡ true → Turn s (record s { waiter = away })
  -- pthread_cond_wait may also return without a signal.
  wake_up : s.waiter ≡ asleep → Turn s (record s { waiter = looking })

pub data Turns (s : Waiting) : Waiting → Type 0 where
  no_turn : Turns s s
  then_turn : {t u : Waiting} → Turns s t → Turn t u → Turns s u
