-- ===== src/Pool/Safety.antt =====
-- What the pool promises, in every state that the threads can reach by any interleaving.
use c_study.Base.{ℕ, ◌≡◌, refl, ◌≢◌, ◌⊎◌, List, [], true, none, some, arith, length}
use c_study.Pool.Worker.{
  ThreadPool, Pc, starting, testing, waiting, checking, entering, pulling, running, finishing,
  exiting, unlocking, returned, Work, start, loop, wake, go, enter, take, perform, no_task, finish,
  wait_returns,
}
use c_study.Pool.System.{System, Client, creating, serving, destroying, freed, Reach}
use c_study.Base.Threads.{worker, weigh-worker, weigh-le}
use c_study.Pool.Invariant.{Reach-Inv, Phase, Phase-at, Tasks, fresh, lives, works, holds, leaves}

Tasks-of : (c : Client) (s : ThreadPool) (ps : List Pc) → c ≢ freed → Phase c s ps → Tasks s ps
Tasks-of creating s ps h p = p.1
Tasks-of serving s ps h p = p.1
Tasks-of destroying s ps h p = p.1
Tasks-of freed s ps h p = absurd (h refl)

wait_returns_iff :
    (s : ThreadPool) → wait_returns s ≡ true → (length s.jobs ≡ 0) × (s.working_threads ≡ 0)
unfolding wait_returns
wait_returns_iff s h = ground arith

-- In every reachable state in which the pool is not yet released, ThreadPoolWait returns only if every
-- task that was submitted has been run to its end.
pub wait_all_finished :
    {n : ℕ} {s : System}
    → Reach n s
    → s.client ≢ freed
    → wait_returns s.pool ≡ true
    → s.pool.finished ≡ s.pool.submitted
wait_all_finished {s} r h w =
    let v = Reach-Inv r in
    omega (
      arith,
      wait_returns_iff s.pool w,
      Tasks-of s.client s.pool s.workers h v.phase,
      v.counted.working_count,
      weigh-le holds works (λ p. ground arith) s.workers,
    )

-- In every reachable state after the pool was released, each worker is past its last use of the queue
-- and of the counters: it has returned, or it is at the last pthread_mutex_unlock, on the mutex of the
-- released pool.
pub freed_workers :
    {n : ℕ} {s : System}
    → Reach n s
    → s.client ≡ freed
    → (i : ℕ) (p : Pc) → worker s.workers i ≡ some p
    → (p ≡ unlocking) ⊎ (p ≡ returned)
freed_workers {s} r e i p h =
    let v = Reach-Inv r in
    let q = Phase-at s.pool s.workers e v.phase in
    ground
      (arith, v.counted, q, weigh-worker fresh s.workers i p h, weigh-worker lives s.workers i p h)

enabled :
    (s : ThreadPool) (p : Pc)
    → s.alive ≡ true
    → s.has_job ≡ true
    → leaves p ≡ 0
    → (pool : ThreadPool) × (p' : Pc) × Work s p pool p'
enabled s starting a h e = (_, _, start)
enabled s testing a h e = (_, _, loop a)
enabled s waiting a h e = (_, _, wake h)
enabled s checking a h e = (_, _, go a)
enabled s entering a h e = (_, _, enter)
enabled s pulling a h e = (_, _, take)
enabled s (running none) a h e = (_, _, no_task)
enabled s (running (some j)) a h e = (_, _, perform)
enabled s finishing a h e = (_, _, finish)
enabled s exiting a h e = absurd (omega arith)
enabled s unlocking a h e = absurd (omega arith)
enabled s returned a h e = absurd (omega arith)

-- In every reachable state of a pool that is in use, with a job in its queue, each worker can make a
-- step, and none of them has left its loop.
pub worker_can_step :
    {n : ℕ} {s : System}
    → Reach n s
    → s.client ≡ serving
    → s.pool.jobs ≢ []
    → (i : ℕ) (p : Pc) → worker s.workers i ≡ some p
    → (leaves p ≡ 0) × ((pool : ThreadPool) × (p' : Pc) × Work s.pool p pool p')
worker_can_step {s} r e some_job i p h =
    let v = Reach-Inv r in
    let q = Phase-at s.pool s.workers e v.phase in
    (
      omega (arith, weigh-worker leaves s.workers i p h, v.counted.stay q.0),
      enabled s.pool p q.0 (ground (arith, v.counted.ready))
          (omega (arith, weigh-worker leaves s.workers i p h, v.counted.stay q.0)),
    )
