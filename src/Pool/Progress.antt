-- ===== src/Pool/Progress.antt =====
-- The workers of thread_pool02 can always finish the tasks.
use native.Mathlib.Decide.{dec_lt}
use c_study.Base.{
  ℕ, zero, suc, ◌+◌, ◌*◌, ◌≤◌, ◌<◌, ◌≡◌, refl, ◌∙◌, ◌≢◌, ◌⊎◌, inl, inr, List, [], ◌∷◌, true, some,
  none, length, arith,
}
use c_study.Base.Threads.{worker, set_worker, weigh, weigh-set_worker, weigh-positive, weigh-le}
use c_study.Pool.Worker.{
  ThreadPool, Pc, starting, testing, waiting, checking, entering, pulling, running, finishing,
  exiting, unlocking, returned, Work, stop, skip, take, perform, no_task, finish, pull,
  wait_returns,
}
use c_study.Pool.System.{System, serving, work, Reach, next}
use c_study.Pool.Invariant.{Reach-Inv, Phase-at, lives, ended, leaves, works}
use c_study.Pool.Safety.{wait_all_finished, worker_can_step}

-- A run of the workers alone.
pub data WorkRun (s : System) : System → Type 0 where
  still : WorkRun s s
  after_work :
      {t : System} (i : ℕ) {p p' : Pc} {pool : ThreadPool}
      → WorkRun s t
      → worker t.workers i ≡ some p
      → Work t.pool p pool p'
      → WorkRun s (record t { pool = pool; workers = set_worker t.workers i p' })

-- How many steps a worker makes until it has taken a job, at most.
abbrev distance : Pc → ℕ
distance returned = 1
distance unlocking = 2
distance exiting = 3
distance pulling = 1
distance entering = 2
distance checking = 3
distance waiting = 4
distance testing = 5
distance starting = 6
distance finishing = 6
distance (running _) = 7

-- How many until it is done with its task.
abbrev left : Pc → ℕ
left pulling = 3
left (running _) = 2
left finishing = 1
left _ = 0

pull-length : (s : ThreadPool) (js : List ℕ) → js ≢ [] → length (pull s js).1.jobs + 1 ≡ length js
unfolding pull
pull-length s [] h = absurd (h refl)
pull-length s (j ∷ []) h = omega arith
pull-length s (j ∷ k ∷ js) h = omega arith

pull-submitted : (s : ThreadPool) (js : List ℕ) → (pull s js).1.submitted ≡ s.submitted
unfolding pull
pull-submitted s [] = refl
pull-submitted s (j ∷ []) = refl
pull-submitted s (j ∷ k ∷ js) = refl

pull-jobs : (s : ThreadPool) (js : List ℕ) → s.jobs ≡ js → js ≡ [] → (pull s js).1.jobs ≡ []
unfolding pull
pull-jobs s [] e h = e
pull-jobs s (j ∷ []) e h = refl
pull-jobs s (j ∷ k ∷ js) e h = cc

Work-submitted : {s t : ThreadPool} {p p' : Pc} → Work s p t p' → t.submitted ≡ s.submitted
Work-submitted {s} take = pull-submitted s s.jobs
Work-submitted mv = refl

-- While there are jobs, every step of a worker brings the pool nearer to an empty queue.
Work-distance :
    {s t : ThreadPool} {p p' : Pc}
    → Work s p t p'
    → s.alive ≡ true
    → s.jobs ≢ []
    → 7 * length t.jobs + distance p' < 7 * length s.jobs + distance p
Work-distance {s} take a h = omega (arith, pull-length s s.jobs h)
Work-distance (stop q) a h = cc
Work-distance (skip q) a h = cc
Work-distance mv a h = omega arith

-- Without jobs, a worker that is at work comes nearer to its end.
Work-left :
    {s t : ThreadPool} {p p' : Pc}
    → Work s p t p'
    → 0 < left p
    → s.jobs ≡ []
    → (left p' < left p) × (t.jobs ≡ [])
Work-left {s} take l e = (omega arith, pull-jobs s s.jobs refl e)
Work-left perform l e = (omega arith, e)
Work-left no_task l e = (omega arith, e)
Work-left finish l e = (omega arith, e)
Work-left mv l e = absurd (omega (arith, l))

at_work : (s : ThreadPool) (p : Pc) → 0 < left p → (t : ThreadPool) × (p' : Pc) × Work s p t p'
at_work s pulling l = (_, _, take)
at_work s (running none) l = (_, _, no_task)
at_work s (running (some j)) l = (_, _, perform)
at_work s finishing l = (_, _, finish)
at_work s starting l = absurd (omega arith)
at_work s testing l = absurd (omega arith)
at_work s waiting l = absurd (omega arith)
at_work s checking l = absurd (omega arith)
at_work s entering l = absurd (omega arith)
at_work s exiting l = absurd (omega arith)
at_work s unlocking l = absurd (omega arith)
at_work s returned l = absurd (omega arith)

List-cases : (l : List ℕ) → (l ≡ []) ⊎ (l ≢ [])
List-cases [] = inl refl
List-cases (j ∷ js) = inr (λ e. cc)

-- From `s` the workers come to `t`, with the same tasks.
record Comes (n : ℕ) (s t : System) : Type 0 where
  run : WorkRun s t
  reached : Reach n t
  client : t.client ≡ serving
  submitted : t.pool.submitted ≡ s.pool.submitted

abbrev Finished : ℕ → System → Type 0
Finished n s =
    (u : System) × WorkRun s u
    × (u.client ≡ serving)
    × (u.pool.submitted ≡ s.pool.submitted)
    × (u.pool.finished ≡ s.pool.submitted)
    × (wait_returns u.pool ≡ true)

ended-leaves : (p : Pc) → ended p ≤ leaves p
ended-leaves p = ground arith

module _ {n : ℕ} {s : System} where
  after_step :
      {t : System} (i : ℕ) {p p' : Pc} {pool : ThreadPool}
      → Comes n s t
      → worker t.workers i ≡ some p
      → Work t.pool p pool p'
      → Comes n s (record t { pool = pool; workers = set_worker t.workers i p' })
  after_step i c at w = record {
    run = after_work i c.run at w;
    reached = next c.reached (work i at w);
    client = c.client;
    submitted = Work-submitted w ∙ c.submitted;
  }

  idle_returns :
      (t : System) → Comes n s t → t.pool.jobs ≡ [] → weigh left t.workers ≡ 0 → Finished n s
  unfolding wait_returns
  idle_returns t c e h =
      let v = Reach-Inv c.reached in
      let none_works : weigh works t.workers ≡ 0 =
        omega (arith, weigh-le works left (λ p. ground arith) t.workers) in
      let empty : length t.pool.jobs ≡ 0 = cc in
      let zero : t.pool.working_threads ≡ 0 = omega (arith, v.counted.working_count) in
      let returns : wait_returns t.pool ≡ true = ground arith in
      (
        t,
        c.run,
        c.client,
        c.submitted,
        wait_all_finished c.reached (λ f. cc (c.client)) returns ∙ c.submitted,
        returns,
      )

  -- The workers that hold a task finish it.
  finish_work :
      (k : ℕ) {t : System}
      → Comes n s t
      → t.pool.jobs ≡ []
      → weigh left t.workers < k
      → Finished n s
  finish_work zero c e h = absurd (omega arith)
  finish_work (suc k) {t} c e h = elim (dec_lt 0 (weigh left t.workers)) [
    | no l ↦ idle_returns t c e (omega arith)
    | yes l ↦
        let (i, p, at, busy) = weigh-positive left t.workers l in
        let (pool, p', w) = at_work t.pool p busy in
        let (lower, empty) = Work-left w busy e in
        finish_work k (after_step i c at w) empty
          (omega (arith, weigh-set_worker left t.workers i p p' at))
  ]

  -- The workers empty the queue.
  empty_queue :
      (k : ℕ) {t : System}
      → 0 < n
      → Comes n s t
      → 7 * length t.pool.jobs + weigh distance t.workers < k
      → Finished n s
  empty_queue zero some_worker c h = absurd (omega arith)
  empty_queue (suc k) {t} some_worker c h = elim (List-cases t.pool.jobs) [
    | inl e ↦ finish_work (weigh left t.workers + 1) c e (omega arith)
    | inr e ↦
        let v = Reach-Inv c.reached in
        let q = Phase-at t.pool t.workers c.client v.phase in
        let (i, p, at, l) = weigh-positive lives t.workers (
          omega (
            arith,
            v.counted.all,
            v.counted.stay q.0,
            q.2,
            weigh-le ended leaves ended-leaves t.workers,
          )) in
        let moves = (worker_can_step c.reached c.client e i p at).1 in
        let (pool, p', w) = moves in
        let lower = Work-distance w q.0 e in
        empty_queue k some_worker (after_step i c at w)
          (omega (arith, weigh-set_worker distance t.workers i p p' at))
  ]

-- From every reachable state of a pool of at least one worker that is in use, there is a run of the workers
-- alone, without a further call of the user, to a state in which every task that was submitted has been run to
-- its end and ThreadPoolWait returns.
pub tasks_finish :
    {n : ℕ} {s : System}
    → 0 < n
    → Reach n s
    → s.client ≡ serving
    → (u : System) × WorkRun s u
      × (u.client ≡ serving)
      × (u.pool.submitted ≡ s.pool.submitted)
      × (u.pool.finished ≡ s.pool.submitted)
      × (wait_returns u.pool ≡ true)
tasks_finish {n} {s} some_worker r e =
    empty_queue (7 * length s.pool.jobs + weigh distance s.workers + 1) some_worker
      (record { run = still; reached = r; client = e; submitted = refl }) (omega arith)
