-- ===== src/Pool/Tests.antt =====
-- One worker and one task, from ThreadPoolCreate to ThreadPoolDestory.
use c_study.Base.{none, some, true, ◌==◌, if◌then◌else◌, false, ◌≡◌, refl, ◌⊎◌, arith}
use c_study.Pool.Worker.{
  unlocking, returned, start, loop, stop, wake, go, enter, take, perform, finish, leave, pull,
  wait_returns,
}
use c_study.Pool.System.{
  System, Step, Reach, init, creating, serving, freed, here, next, work, created, submit, destroy,
  release, add_task,
}
use c_study.Pool.Safety.{wait_all_finished, freed_workers}
use c_study.Pool.Release.{Run, done, then_step, shut_down_ends}
use c_study.Pool.Waiter.{
  away, signals, notified, Waiting, at_first, work_on, use_pool, call, sleep, Turns, no_turn,
  then_turn,
}
use c_study.Jobs.Semaphore.{create as sem_create}
use c_study.Jobs.Queue.{Memory, create}
use c_study.Jobs.Segment.{last_of}
use c_study.Pool.Queue.{Implements, call_of, call_queue, call_queue-Implements}
use c_study.Pool.Blocks.{
  Blocks, Made, create_queue, create_thread, create_threads, create_with_queue, create_pool,
}
use c_study.Pool.Create.{Makes, Fails, create_pool-destroy_pool}
use c_study.Pool.Started.{create_pool-creating}
use c_study.Pool.Wakeup.{asleep-wait_returns, wait_ends}

-- A task is in the queue, and the worker is in BinarySemaphoreWait.
abbrev queued : (s : System) × Reach 1 s
unfolding add_task
queued = (
  _,
  next (next (next (next here (work 0 refl start)) (created refl refl)) (submit 5 refl))
      (work 0 refl (loop refl)),
)

-- The worker has run the task.
abbrev idle : (s : System) × Reach 1 s
unfolding queued pull
idle = (
  _,
  next
      (next
        (next
          (next (next (next queued.1 (work 0 refl (wake refl))) (work 0 refl (go refl)))
            (work 0 refl enter))
          (work 0 refl take))
        (work 0 refl perform))
      (work 0 refl finish),
)

-- The pool is released while the worker has not unlocked its mutex yet.
abbrev race : (s : System) × Reach 1 s
unfolding idle
race = (
  _,
  next (next (next (next idle.1 (destroy refl)) (work 0 refl (stop refl))) (work 0 refl leave))
      (release refl refl),
)

wait_all_finished_example : idle.0.pool.finished ≡ idle.0.pool.submitted
unfolding race wait_returns
wait_all_finished_example = wait_all_finished idle.1 (λ e. cc) refl

freed_workers_example : (unlocking ≡ unlocking) ⊎ (unlocking ≡ returned)
unfolding race
freed_workers_example = freed_workers race.1 refl 0 unlocking refl

-- ThreadPoolDestory has been called, and the worker is at the head of its loop.
abbrev closing : (s : System) × Reach 1 s
unfolding race
closing = (_, next idle.1 (destroy refl))

shut_down_ends_example : (u : System) × Run closing.0 u × (u.client ≡ freed)
unfolding closing
shut_down_ends_example = shut_down_ends closing.1 refl

-- The user's thread sleeps in ThreadPoolWait while the task is in the queue.
abbrev sleeping : (s : Waiting) × Turns (at_first 1) s
unfolding add_task wait_returns notified signals
sleeping = (
  _,
  then_turn
      (then_turn
        (then_turn
          (then_turn
            (then_turn (then_turn no_turn (use_pool refl (work 0 refl start)))
              (use_pool refl (created refl refl)))
            (use_pool refl (submit 5 refl)))
          (work_on 0 refl (loop refl)))
        (call refl refl))
      (sleep refl refl),
)

asleep-wait_returns_example : wait_returns sleeping.0.system.pool ≡ false
unfolding sleeping
asleep-wait_returns_example = asleep-wait_returns sleeping.1 refl

wait_ends_example :
    (u : Waiting) × Turns sleeping.0 u
    × (u.waiter ≡ away)
    × (u.system.pool.submitted ≡ 1)
    × (u.system.pool.finished ≡ 1)
unfolding sleeping
wait_ends_example = wait_ends (omega arith) sleeping.1 (λ e. cc)

-- An allocated job at 10, and an empty queue.
abbrev store : Memory
unfolding create sem_create
store = record {
  jobs = λ p. if p == 10 then some (record { next = none; func = 7; arg = 1 }) else none;
  queue = create;
}

store-Implements : Implements store (init 1).pool
unfolding last_of store
store-Implements = record {
  represents = record {
    segment = refl;
    last = refl;
    counted = refl;
    distinct = tt;
    ready = λ h. absurd (omega (arith, h));
  };
  flag = refl;
}

abbrev new_pool : System
new_pool = record (init 1) { client = serving }

abbrev submits : Step new_pool (record new_pool { pool = add_task new_pool.pool 10 })
submits = submit 10 refl

call_queue-Implements_example :
    (m : Memory) × (call_queue (call_of submits) store ≡ some (none, m))
    × Implements m (add_task new_pool.pool 10)
unfolding store
call_queue-Implements_example =
    call_queue-Implements store store-Implements submits ((_, refl), tt, omega arith)

-- Two workers of which the second one cannot be allocated, and a semaphore that cannot.
abbrev one_of_two : Blocks
one_of_two = record {
  pool = true;
  queue = true;
  semaphore = true;
  threads = true;
  thread = λ id. id == 0;
}

abbrev no_semaphore : Blocks
no_semaphore = record one_of_two { semaphore = false; thread = λ id. true }

create_pool-destroy_pool_example : Makes no_semaphore 2 ⊎ Fails no_semaphore 2
create_pool-destroy_pool_example = create_pool-destroy_pool no_semaphore 2 (λ id l. refl)

-- The pool that is made, with the only thread that runs counted as alive.
abbrev half : (made : Made) × (live : Blocks) × (create_pool one_of_two 2 ≡ some (some made, live))
unfolding create_pool create_queue create_with_queue create_threads create_thread
half = (_, _, refl)

abbrev half_alive : (s : System) × Run half.0.system s
unfolding half
half_alive = (_, then_step done (work 0 refl start))

create_pool-creating_example : half_alive.0.client ≡ creating
create_pool-creating_example =
    create_pool-creating one_of_two 2 1 half.0 half.1 half_alive.0 half.2 (omega arith) refl
      half_alive.1
