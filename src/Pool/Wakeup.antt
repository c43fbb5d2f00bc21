-- ===== src/Pool/Wakeup.antt =====
-- ThreadPoolWait misses no signal.
use c_study.Base.{ℕ, ◌≤◌, ◌<◌, ◌≡◌, refl, ◌≢◌, Bool, true, false, List, [], ◌∷◌, arith}
use c_study.Base.Threads.{weigh-worker}
use c_study.Pool.Worker.{
  ThreadPool, Pc, Work, start, loop, stop, wake, go, skip, enter, take, perform, no_task, finish,
  leave, unlock, pull, wait_returns,
}
use c_study.Pool.System.{System, serving, work, Reach, here, next}
use c_study.Pool.Invariant.{Reach-Inv, works}
use c_study.Pool.Progress.{WorkRun, still, after_work, tasks_finish}
use c_study.Pool.Waiter.{
  Waiter, away, looking, asleep, Waiting, at_first, signals, notified, Turn, work_on, use_pool,
  call, sleep, come_back, wake_up, Turns, no_turn, then_turn,
}

pull-working_threads :
    (s : ThreadPool) (js : List ℕ) → (pull s js).1.working_threads ≡ s.working_threads
unfolding pull
pull-working_threads s [] = refl
pull-working_threads s (j ∷ []) = refl
pull-working_threads s (j ∷ k ∷ js) = refl

-- Without a signal, no step of a worker makes the test of ThreadPoolWait come out otherwise.
Work-wait_returns :
    {s t : ThreadPool} {p p' : Pc}
    → (move : Work s p t p') → works p ≤ s.working_threads
    → signals move ≡ false
    → wait_returns s ≡ false
    → wait_returns t ≡ false
unfolding wait_returns signals
Work-wait_returns start l q h = h
Work-wait_returns (loop e) l q h = h
Work-wait_returns (stop e) l q h = h
Work-wait_returns (wake e) l q h = h
Work-wait_returns (go e) l q h = h
Work-wait_returns (skip e) l q h = h
Work-wait_returns enter l q h = ground arith
Work-wait_returns {s} take l q h = let same = pull-working_threads s s.jobs in ground arith
Work-wait_returns perform l q h = h
Work-wait_returns no_task l q h = h
Work-wait_returns finish l q h = ground arith
Work-wait_returns leave l q h = h
Work-wait_returns unlock l q h = h

-- The user's thread only waits in a pool that is in use, and only sleeps where its test fails.
record Awake (n : ℕ) (s : Waiting) : Type 0 where
  reached : Reach n s.system
  serves : s.waiter ≢ away → s.system.client ≡ serving
  test : s.waiter ≡ asleep → wait_returns s.system.pool ≡ false

notified-away : (q : Bool) (w : Waiter) → notified q w ≢ away → w ≢ away
unfolding notified
notified-away false w h = h
notified-away true away h = h
notified-away true looking h = λ e. cc
notified-away true asleep h = λ e. cc

notified-asleep : (q : Bool) (w : Waiter) → notified q w ≡ asleep → (q ≡ false) × (w ≡ asleep)
unfolding notified
notified-asleep false w e = (refl, e)
notified-asleep true away e = cc
notified-asleep true looking e = cc
notified-asleep true asleep e = cc

notified-stays : (q : Bool) (w : Waiter) → w ≢ away → notified q w ≢ away
unfolding notified
notified-stays false w h = h
notified-stays true away h = h
notified-stays true looking h = λ e. cc
notified-stays true asleep h = λ e. cc

Turn-Awake : {n : ℕ} {s t : Waiting} → Awake n s → Turn s t → Awake n t
Turn-Awake {n} {s} v (work_on i {p} at move) =
    let w = s.waiter in
    let counted = (Reach-Inv v.reached).counted.working_count in
    record {
      reached = next v.reached (work i at move);
      serves = λ h. v.serves (notified-away (signals move) w h);
      test = λ e.
          let (quiet, slept) = notified-asleep (signals move) w e in
          Work-wait_returns move
            (omega (arith, counted, weigh-worker works s.system.workers i p at)) quiet
            (v.test slept);
    }
Turn-Awake {n} {s} v (use_pool e step) = record {
  reached = next v.reached step;
  serves = λ h. absurd (h e);
  test = λ h. cc;
}
Turn-Awake {n} {s} v (call e c) = record { reached = v.reached; serves = λ h. c; test = λ h. cc }
Turn-Awake {n} {s} v (sleep e f) = record {
  reached = v.reached;
  serves = λ h. v.serves (λ q. cc);
  test = λ h. f;
}
Turn-Awake {n} {s} v (come_back e f) = record {
  reached = v.reached;
  serves = λ h. absurd (h refl);
  test = λ h. cc;
}
Turn-Awake {n} {s} v (wake_up e) = record {
  reached = v.reached;
  serves = λ h. v.serves (λ q. cc);
  test = λ h. cc;
}

Turns-Awake : {n : ℕ} {s : Waiting} → Turns (at_first n) s → Awake n s
Turns-Awake {n} no_turn = record { reached = here; serves = λ h. absurd (h refl); test = λ h. cc }
Turns-Awake (then_turn before turn) = Turn-Awake (Turns-Awake before) turn

-- In every state that the threads can reach, the user's thread sleeps in ThreadPoolWait only while there are
-- jobs in the queue or threads at work: no signal on the condition variable is lost.
pub asleep-wait_returns :
    {n : ℕ} {s : Waiting}
    → Turns (at_first n) s
    → s.waiter ≡ asleep
    → wait_returns s.system.pool ≡ false
asleep-wait_returns turns e = (Turns-Awake turns).test e

Turns-trans : {s t u : Waiting} → Turns s t → Turns t u → Turns s u
Turns-trans before no_turn = before
Turns-trans before (then_turn turns turn) = then_turn (Turns-trans before turns) turn

-- The workers make their run while the user's thread is in ThreadPoolWait.
WorkRun-Turns :
    {s : Waiting} {u : System}
    → s.waiter ≢ away
    → WorkRun s.system u
    → (w : Waiter) × Turns s (record { system = u; waiter = w }) × (w ≢ away)
WorkRun-Turns {s} h still = (s.waiter, no_turn, h)
WorkRun-Turns {s} h (after_work i before at move) =
    let (w, turns, k) = WorkRun-Turns h before in
    (
      notified (signals move) w,
      then_turn turns (work_on i at move),
      notified-stays (signals move) w k,
    )

-- The user's thread returns where its test comes out so, unless a signal was lost.
returns :
    {n : ℕ} (u : System) (w : Waiter)
    → Turns (at_first n) (record { system = u; waiter = w })
    → wait_returns u.pool ≡ true
    → w ≢ away
    → Turn (record { system = u; waiter = w }) (record { system = u; waiter = away })
returns u away turns e h = absurd (h refl)
returns u looking turns e h = come_back refl e
returns u asleep turns e h = cc (asleep-wait_returns turns refl)

-- Whenever the user's thread is in ThreadPoolWait of a pool of at least one worker, asleep or not, the
-- threads can go on to a state in which it has returned, with all the tasks that were submitted run to
-- their end and no task submitted in between.
pub wait_ends :
    {n : ℕ} {s : Waiting}
    → 0 < n
    → Turns (at_first n) s
    → s.waiter ≢ away
    → (u : Waiting) × Turns s u
      × (u.waiter ≡ away)
      × (u.system.pool.submitted ≡ s.system.pool.submitted)
      × (u.system.pool.finished ≡ s.system.pool.submitted)
wait_ends {n} {s} some_worker turns h =
    let v = Turns-Awake turns in
    let (u, run, c, same, all, e) = tasks_finish some_worker v.reached (v.serves h) in
    let (w, later, k) = WorkRun-Turns h run in
    (
      record { system = u; waiter = away },
      then_turn later (returns u w (Turns-trans turns later) e k),
      refl,
      same,
      all,
    )
