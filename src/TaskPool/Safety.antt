-- ===== src/TaskPool/Safety.antt =====
-- What the pool of thread_pool01 promises, and what it does not, in every reachable state.
use c_study.Base.{
  ℕ, zero, suc, ◌+◌, ◌≤◌, ◌≡◌, refl, ◌≢◌, ◌⊎◌, inl, inr, List, [], ◌∷◌, Bool, true, false, some,
  arith, length, All,
}
use c_study.Base.Threads.{worker, weigh, weigh-worker, weigh-le}
use c_study.TaskPool.Worker.{
  ThreadPool, Pc, testing, locking, performing, finishing, leaving, storing, signalling, unlocking,
  returned, Work, loop, take, perform, finish, wait_returns,
}
use c_study.TaskPool.System.{
  System, serving, destroying, freed, Step, work, submit, destroy, release, Reach,
}
use c_study.TaskPool.Invariant.{
  Reach-Inv, Phase-at, counted, works, holds, locks, leaves, bit, wait_returns-shut_down,
}

wait_returns-running :
    (s : ThreadPool) → s.running ≡ true → wait_returns s ≡ true → s.working_count ≡ 0
unfolding wait_returns
wait_returns-running s h w = ground arith

-- In every reachable state of a pool that is in use, when ThreadPoolWait returns no thread is at work on
-- a task: each task that was submitted has been run to its end or still stands in the list.
pub wait_returns-idle :
    {num : ℕ} {s : System}
    → Reach num s
    → s.client ≡ serving
    → wait_returns s.pool ≡ true
    → (weigh works s.workers ≡ 0) × (s.pool.submitted ≡ s.pool.finished + length s.pool.tasks)
wait_returns-idle {num} {s} r e w =
    let v = Reach-Inv r in
    let h = Phase-at s.pool s.workers e v.phase in
    let idle = wait_returns-running s.pool h.0 w in
    omega (arith, v.counts.working, h.1, weigh-le holds works (λ p. ground arith) s.workers)

uncounted :
    (p : Pc)
    → counted p ≡ 0
    → ((locked : Bool) × (p ≡ signalling locked))
      ⊎ (((locked : Bool) × (p ≡ unlocking locked)) ⊎ (p ≡ returned))
uncounted (signalling locked) e = inl (locked, refl)
uncounted (unlocking locked) e = inr (inl (locked, refl))
uncounted returned e = inr (inr refl)
uncounted testing e = absurd (omega arith)
uncounted locking e = absurd (omega arith)
uncounted (performing task) e = absurd (omega arith)
uncounted finishing e = absurd (omega arith)
uncounted (leaving locked) e = absurd (omega arith)
uncounted (storing locked count) e = absurd (omega arith)

-- In every reachable state after the pool was released each thread has returned, or it has counted itself out
-- and is at the last pthread_cond_signal or the last pthread_mutex_unlock, on the released pool.
pub freed_workers_lem :
    {num : ℕ} {s : System}
    → Reach num s
    → s.client ≡ freed
    → (i : ℕ) (p : Pc) → worker s.workers i ≡ some p
    → ((locked : Bool) × (p ≡ signalling locked))
      ⊎ (((locked : Bool) × (p ≡ unlocking locked)) ⊎ (p ≡ returned))
freed_workers_lem {num} {s} r e i p h =
    let v = Reach-Inv r in
    let q = Phase-at s.pool s.workers e v.phase in
    uncounted p (omega (arith, q.1, weigh-worker counted s.workers i p h))

first_task : (ts : List ℕ) → ts ≢ [] → (task : ℕ) × (tasks : List ℕ) × (ts ≡ task ∷ tasks)
first_task [] h = absurd (h refl)
first_task (task ∷ tasks) h = (task, tasks, refl)

enabled :
    (s : ThreadPool) (p : Pc)
    → s.running ≡ true
    → s.held ≡ false
    → s.tasks ≢ []
    → leaves p ≡ 0
    → (pool : ThreadPool) × (p' : Pc) × Work s p pool p'
enabled s testing a f t e = (_, _, loop a)
enabled s locking a f t e =
    let (task, tasks, first) = first_task s.tasks t in (_, _, take f a first)
enabled s (performing task) a f t e = (_, _, perform)
enabled s finishing a f t e = (_, _, finish f)
enabled s (leaving locked) a f t e = absurd (omega arith)
enabled s (storing locked count) a f t e = absurd (omega arith)
enabled s (signalling locked) a f t e = absurd (omega arith)
enabled s (unlocking locked) a f t e = absurd (omega arith)
enabled s returned a f t e = absurd (omega arith)

bit_zero : (b : Bool) → bit b ≡ 0 → b ≡ false
bit_zero true h = absurd (omega arith)
bit_zero false h = refl

locks-le-leaves : (p : Pc) → locks p ≤ leaves p
locks-le-leaves p = ground arith

-- In every reachable state of a pool that is in use, with a task in its list, each thread can make a step,
-- and none of them has left its loop.
thread_can_step :
    {num : ℕ} {s : System}
    → Reach num s
    → s.client ≡ serving
    → s.pool.tasks ≢ []
    → (i : ℕ) (p : Pc) → worker s.workers i ≡ some p
    → (leaves p ≡ 0) × ((pool : ThreadPool) × (p' : Pc) × Work s.pool p pool p')
thread_can_step {num} {s} r e some_task i p h =
    let v = Reach-Inv r in
    let q = Phase-at s.pool s.workers e v.phase in
    let stays : leaves p ≡ 0 =
      omega (arith, weigh-worker leaves s.workers i p h, v.counts.stay q.0) in
    let free : s.pool.held ≡ false = bit_zero s.pool.held (
      omega (
        arith,
        v.counts.lock,
        v.counts.stay q.0,
        weigh-le locks leaves locks-le-leaves s.workers,
      )) in
    (stays, enabled s.pool p q.0 free some_task stays)

-- ThreadPoolDestory waits, the threads have all returned, and the count of threads is not 0.
pub record IsHung (s : System) : Type 0 where
  pub client : s.client ≡ destroying
  pub shut : s.pool.running ≡ false
  pub over : All (λ p. p ≡ returned) s.workers
  pub count : s.pool.thread_count ≢ 0

worker-returned :
    (ps : List Pc) (i : ℕ) (p : Pc)
    → All (λ q. q ≡ returned) ps
    → worker ps i ≡ some p
    → p ≡ returned
worker-returned [] i p a e = cc
worker-returned (q ∷ ps) zero p a e = cc
worker-returned (q ∷ ps) (suc i) p a e = worker-returned ps i p a.1 e

returned_stays : {s t : ThreadPool} {p p' : Pc} → Work s p t p' → p ≢ returned
returned_stays (loop h) e = cc
returned_stays mv e = cc

-- When ThreadPoolDestory waits, every thread has returned and `thread_count` is still not 0, no step is
-- possible any more, so that ThreadPoolDestory never returns.
pub hung_no_step : {s t : System} → IsHung s → ¬ Step s t
hung_no_step {s} h (work i {p} e mv) = returned_stays mv (worker-returned s.workers i p h.over e)
hung_no_step {s} h (submit task e free) = cc (h.client)
hung_no_step {s} h (destroy e free) = cc (h.client)
hung_no_step {s} h (release e free done) =
    absurd (h.count (wait_returns-shut_down s.pool h.shut done))
