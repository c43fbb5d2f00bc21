-- ===== src/TaskPool/Tests.antt =====
-- thread_pool01: two threads and up to two tasks, from ThreadPoolCreate on.
use c_study.Base.{
  Bool, ℕ, ◌+◌, ◌≡◌, refl, ◌⊎◌, [], ◌∷◌, true, false, Option, none, some, length, ◌==◌,
  if◌then◌else◌,
}
use c_study.Base.Threads.{weigh}
use c_study.Jobs.Queue.{Job}
use c_study.TaskPool.TaskList.{Tasks, Holds}
use c_study.TaskPool.Worker.{
  signalling, signal, unlocking, returned, stop, read, write, unlock_unheld, wait_returns,
}
use c_study.TaskPool.System.{
  System, destroying, Step, work, submit, destroy, release, Reach, here, next, append_task,
  shut_down,
}
use c_study.TaskPool.Invariant.{works}
use c_study.TaskPool.Safety.{wait_returns-idle, freed_workers_lem}
use c_study.TaskPool.Hang.{hang_lem}

abbrev written : ℕ → Option ℕ → Job
written func link = record { next = link; func = func; arg = 0 }

-- One task, at 10.
abbrev one : Tasks
one = record { store = λ p. if p == 10 then some (written 7 none) else none; task_list = some 10 }

one-Holds : Holds one (10 ∷ [])
one-Holds = record { segment = (written 7 none, refl, refl, refl); distinct = (tt, tt) }

-- A task is submitted, and no thread has taken it: ThreadPoolWait returns at once.
abbrev early : (s : System) × Reach 2 s
unfolding append_task
early = (_, next here (submit 5 refl refl))

wait_returns-idle_example :
    (weigh works early.0.workers ≡ 0)
    × (early.0.pool.submitted ≡ early.0.pool.finished + length early.0.pool.tasks)
unfolding early wait_returns
wait_returns-idle_example = wait_returns-idle early.1 refl refl

early_returns :
    (wait_returns early.0.pool ≡ true) × (early.0.pool.finished ≡ 0) × (early.0.pool.submitted ≡ 1)
unfolding early wait_returns
early_returns = (refl, refl, refl)

-- Both threads are at the test of the outer loop when the pool is shut down.
abbrev shut : (s : System) × Reach 2 s
unfolding shut_down
shut = (_, next here (destroy refl refl))

-- One after the other they count themselves out, and the pool is released before the last signal.
abbrev released : (s : System) × Reach 2 s
unfolding shut wait_returns
released = (
  _,
  next
      (next
        (next
          (next
            (next
              (next
                (next (next (next shut.1 (work 0 refl (stop refl))) (work 1 refl (stop refl)))
                  (work 0 refl read))
                (work 0 refl write))
              (work 0 refl signal))
            (work 0 refl unlock_unheld))
          (work 1 refl read))
        (work 1 refl write))
      (release refl refl refl),
)

freed_workers_lem_example :
    ((locked : Bool) × (signalling false ≡ signalling locked))
    ⊎ (((locked : Bool) × (signalling false ≡ unlocking locked)) ⊎ (signalling false ≡ returned))
unfolding released
freed_workers_lem_example = freed_workers_lem released.1 refl 1 (signalling false) refl

hang_lem_example :
    (s : System) × Reach 2 s × (s.client ≡ destroying) × ((t : System) → Step s t → ⊥)
hang_lem_example = hang_lem 0
