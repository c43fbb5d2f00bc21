-- ===== src/Pool/Release.antt =====
-- ThreadPoolDestory of thread_pool02 can always come to its end.
use native.Mathlib.Decide.{dec_lt}
use c_study.Base.{ℕ, zero, suc, ◌+◌, ◌<◌, ◌≡◌, refl, true, false, some, none, arith}
use c_study.Base.Threads.{weigh, weigh-set_worker, weigh-positive}
use c_study.Pool.Worker.{
  ThreadPool, Pc, starting, testing, waiting, checking, entering, pulling, running, finishing,
  exiting, unlocking, returned, Work, start, loop, stop, wake, go, skip, enter, take, perform,
  no_task, finish, leave, unlock,
}
use c_study.Pool.System.{System, destroying, freed, Step, work, post_all, release, Reach, next}
use c_study.Pool.Invariant.{Reach-Inv, Phase-at, lives}

-- How many steps a worker has before it at most, when the pool is not alive.
abbrev rank : Pc → ℕ
rank returned = 0
rank unlocking = 1
rank exiting = 2
rank testing = 3
rank starting = 4
rank checking = 4
rank waiting = 5
rank finishing = 4
rank (running _) = 5
rank pulling = 6
rank entering = 7

Work-rank : {s t : ThreadPool} {p p' : Pc} → Work s p t p' → s.alive ≡ false → rank p' < rank p
Work-rank start a = omega arith
Work-rank (loop h) a = cc
Work-rank (stop h) a = omega arith
Work-rank (wake h) a = omega arith
Work-rank (go h) a = cc
Work-rank (skip h) a = omega arith
Work-rank enter a = omega arith
Work-rank take a = omega arith
Work-rank perform a = omega arith
Work-rank no_task a = omega arith
Work-rank finish a = omega arith
Work-rank leave a = omega arith
Work-rank unlock a = omega arith

-- A worker that has counted itself in and not out can make a step.
enabled :
    (s : ThreadPool) (p : Pc)
    → s.alive ≡ false
    → s.has_job ≡ true
    → 0 < lives p
    → (t : ThreadPool) × (p' : Pc) × Work s p t p'
enabled s starting a h l = absurd (omega arith)
enabled s testing a h l = (_, _, stop a)
enabled s waiting a h l = (_, _, wake h)
enabled s checking a h l = (_, _, skip a)
enabled s entering a h l = (_, _, enter)
enabled s pulling a h l = (_, _, take)
enabled s (running none) a h l = (_, _, no_task)
enabled s (running (some j)) a h l = (_, _, perform)
enabled s finishing a h l = (_, _, finish)
enabled s exiting a h l = (_, _, leave)
enabled s unlocking a h l = absurd (omega arith)
enabled s returned a h l = absurd (omega arith)

-- A run of the system.
pub data Run (s : System) : System → Type 0 where
  done : Run s s
  then_step : {t u : System} → Run s t → Step t u → Run s u

module _ {n : ℕ} where
  -- The client posts the semaphore, and a worker makes a step.
  one_round :
      (s : System) {t : System}
      → Run s t
      → Reach n t
      → t.client ≡ destroying
      → 0 < t.pool.alive_threads
      → (u : System) × Run s u
        × Reach n u
        × (u.client ≡ destroying)
        × (weigh rank u.workers < weigh rank t.workers)
  one_round s {t} run r e h =
      let v = Reach-Inv r in
      let q = Phase-at t.pool t.workers e v.phase in
      let some_lives : 0 < weigh lives t.workers = omega (arith, v.counted.alive_count) in
      let (i, p, at, live) = weigh-positive lives t.workers some_lives in
      let (pool, p', w) = enabled (record t.pool { has_job = true }) p q.0 refl live in
      let posted = post_all e h in
      let moved = work i at w in
      let lower = Work-rank w q.0 in
      (
        _,
        then_step (then_step run posted) moved,
        next (next r posted) moved,
        e,
        omega (arith, weigh-set_worker rank t.workers i p p' at),
      )

  shut_down :
      (k : ℕ) (s : System) {t : System}
      → Run s t
      → Reach n t
      → t.client ≡ destroying
      → weigh rank t.workers < k
      → (u : System) × Run s u × (u.client ≡ freed)
  shut_down zero s run r e f = absurd (omega arith)
  shut_down (suc k) s {t} run r e f = elim (dec_lt 0 t.pool.alive_threads) [
    | no h ↦ (_, then_step run (release e (omega arith)), refl)
    | yes h ↦
        let (u, run', r', e', lower) = one_round s run r e h in
        shut_down k s run' r' e' (omega arith)
  ]

  -- From every reachable state in which the user is in ThreadPoolDestory, whatever the workers are doing and
  -- however many tasks are queued, there is a run to the release of the pool.
  pub shut_down_ends :
      {s : System} → Reach n s → s.client ≡ destroying → (u : System) × Run s u × (u.client ≡ freed)
  shut_down_ends {s} r e = shut_down (weigh rank s.workers + 1) s done r e (omega arith)
