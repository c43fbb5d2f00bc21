-- ===== src/Pool/Queue.antt =====
-- thread_pool02: the pool with the queue of job_queue.c in place of its list of jobs.
use mathlib.Core.Path.{subst}
use c_study.Base.{
  ℕ, ◌+◌, ◌^◌, ◌<◌, ◌≡◌, refl, sym, ◌∙◌, List, [], ◌∷◌, false, Option, none, some, length,
  length-append, ◌>>=◌, arith,
}
use c_study.Jobs.Semaphore
use c_study.Jobs.Queue
use c_study.Jobs.Queue.{Memory, Job}
use c_study.Jobs.Segment.{Misses, Represents}
use c_study.Jobs.Refine.{push_lem, pull_lem}
use c_study.Jobs.Drain.{clear_lem}
use c_study.Pool.Worker.{
  ThreadPool, Pc, running, Work, start, loop, stop, wake, go, skip, enter, take, perform, no_task,
  finish, leave, unlock, pull,
}
use c_study.Pool.System.{System, Step, work, created, submit, destroy, post_all, release, add_task}

-- The jobs of the pool, by their addresses, and the flag of its semaphore, as the queue has them.
pub record Implements (m : Memory) (s : ThreadPool) : Type 0 where
  pub represents : Represents m s.jobs
  pub flag : m.queue.has_job.value ≡ s.has_job

-- A pull from a queue of at most one job leaves the flag of the semaphore.
pull-has_job :
    (m m' : Memory) (h : Option ℕ)
    → m.queue.length < 2
    → Queue.pull m ≡ some (h, m')
    → m'.queue.has_job.value ≡ m.queue.has_job.value
unfolding Queue.pull
pull-has_job m m' h l e = ground arith

-- What a step of the pool calls of the queue.
pub data QueueCall : Type 0 where
  nothing pulls posts_all clears : QueueCall
  pushes : (j : ℕ) → QueueCall

unfoldable pub call_of_work : {s t : ThreadPool} {p p' : Pc} → Work s p t p' → QueueCall
call_of_work take = pulls
call_of_work move = nothing

unfoldable pub call_of : {s t : System} → Step s t → QueueCall
unfolding call_of_work
call_of (work i at move) = call_of_work move
call_of (submit j e) = pushes j
call_of (post_all e h) = posts_all
call_of (release e h) = clears
call_of (created e h) = nothing
call_of (destroy e) = nothing

-- The call of JobQueuePush, JobQueuePull, BinarySemaphorePostAll or JobQueueClear: the job that it gives, and
-- the memory.
unfoldable pub call_queue : QueueCall → Memory → Option (Option ℕ × Memory)
unfolding Semaphore.post_all
call_queue nothing m = some (none, m)
call_queue pulls m = Queue.pull m
call_queue posts_all m =
    some
      (none, record m { queue = record m.queue { has_job = Semaphore.post_all m.queue.has_job } })
call_queue clears m = do m' ← Queue.clear m; some (none, m')
call_queue (pushes j) m = do m' ← Queue.push m j; some (none, m')

-- The job that a worker has in hand after its step.
abbrev pub in_hand : Pc → Option ℕ
in_hand (running task) = task
in_hand _ = none

abbrev pub given : {s t : System} → Step s t → Option ℕ
given (work i {p'} at move) = in_hand p'
given step = none

-- ThreadPoolAddTask makes a new job, and there are fewer than 2^64.
abbrev pub IsNew : {s t : System} → Memory → Step s t → Type 0
IsNew {s} m (submit j e) =
    ((job : Job) × (m.jobs j ≡ some job)) × Misses j s.pool.jobs × (length s.pool.jobs + 1 < 2 ^ 64)
IsNew m step = Unit {0}

pull-jobs :
    (m : Memory) (s : ThreadPool) (js : List ℕ)
    → s.jobs ≡ js
    → Represents m js
    → m.queue.has_job.value ≡ s.has_job
    → (m' : Memory) × (Queue.pull m ≡ some ((pull s js).0, m')) × Implements m' (pull s js).1
unfolding pull
pull-jobs m s [] e r f =
    let (m', g, r', k) = pull_lem m [] r in
    (
      m',
      g,
      record {
        represents = subst (Represents m') (sym e) r';
        flag = pull-has_job m m' none (omega (arith, r.counted)) g ∙ f;
      },
    )
pull-jobs m s (p ∷ []) e r f =
    let (m', g, r', k) = pull_lem m (p ∷ []) r in
    (
      m',
      g,
      record {
        represents = r';
        flag = pull-has_job m m' (some p) (omega (arith, r.counted)) g ∙ f;
      },
    )
pull-jobs m s (p ∷ q ∷ ps) e r f =
    let (m', g, r', k) = pull_lem m (p ∷ q ∷ ps) r in
    (m', g, record { represents = r'; flag = r'.ready (omega arith) })

Work-Implements :
    {s t : ThreadPool} {p p' : Pc} (m : Memory)
    → Implements m s
    → (move : Work s p t p')
    → (m' : Memory) × (call_queue (call_of_work move) m ≡ some (in_hand p', m')) × Implements m' t
unfolding call_queue call_of_work
Work-Implements {s} m v take = pull-jobs m s s.jobs refl v.represents v.flag
Work-Implements m v start = (m, refl, record { represents = v.represents; flag = v.flag })
Work-Implements m v (loop e) = (m, refl, v)
Work-Implements m v (stop e) = (m, refl, v)
Work-Implements m v (wake e) = (m, refl, v)
Work-Implements m v (go e) = (m, refl, v)
Work-Implements m v (skip e) = (m, refl, v)
Work-Implements m v enter = (m, refl, record { represents = v.represents; flag = v.flag })
Work-Implements m v perform = (m, refl, record { represents = v.represents; flag = v.flag })
Work-Implements m v no_task = (m, refl, v)
Work-Implements m v finish = (m, refl, record { represents = v.represents; flag = v.flag })
Work-Implements m v leave = (m, refl, record { represents = v.represents; flag = v.flag })
Work-Implements m v unlock = (m, refl, v)

wait-false : (b : Semaphore.BinarySemaphore) → Semaphore.wait b ≡ none → b.value ≡ false
unfolding Semaphore.wait
wait-false b e = ground arith

-- Where the memory has the jobs and the flag of the pool, and a job that ThreadPoolAddTask submits is a new
-- one, then for every step of the pool the calls that the program makes of its queue in this step succeed on
-- the memory, give a worker the job that it has in hand after the step, and leave the memory with the jobs
-- and the flag of the pool after the step.
pub call_queue-Implements :
    {s t : System} (m : Memory)
    → Implements m s.pool
    → (step : Step s t) → IsNew m step
    → (m' : Memory) × (call_queue (call_of step) m ≡ some (given step, m')) × Implements m' t.pool
unfolding call_queue call_of add_task Semaphore.post_all
call_queue-Implements m v (work i at move) h = Work-Implements m v move
call_queue-Implements m v (created e f) h = (m, refl, v)
call_queue-Implements {s} m v (submit j e) h =
    let (m', g, r', k) = push_lem m s.pool.jobs j h.0.0 v.represents h.0.1 h.1 h.2 in
    (
      m',
      rw (g, ◌>>=◌) refl,
      record {
        represents = r';
        flag = r'.ready (omega (arith, length-append s.pool.jobs (j ∷ [])));
      },
    )
call_queue-Implements m v (destroy e) h =
    (m, refl, record { represents = v.represents; flag = v.flag })
call_queue-Implements m v (post_all e f) h = (
  record m { queue = record m.queue { has_job = Semaphore.post_all m.queue.has_job } },
  refl,
  record {
    represents = record {
      segment = v.represents.segment;
      last = v.represents.last;
      counted = v.represents.counted;
      distinct = v.represents.distinct;
      ready = λ l. refl;
    };
    flag = refl;
  },
)
call_queue-Implements {s} m v (release e f) h =
    let (m', g, r', w, frame, gone) = clear_lem m s.pool.jobs v.represents in
    (m', rw (g, ◌>>=◌) refl, record { represents = r'; flag = wait-false m'.queue.has_job w })
