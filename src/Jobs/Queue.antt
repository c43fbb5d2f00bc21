-- ===== src/Jobs/Queue.antt =====
-- thread_pool02/job_queue.h and job_queue.c: the queue on a store of jobs. An address that holds no
-- job faults, and so does a read through NULL; `none` is such a fault.
use c_study.Base.{ℕ, zero, suc, ◌+◌, ◌-◌, ◌%◌, ◌^◌, Option, none, some, ◌==◌, if◌then◌else◌, ◌>>=◌}
use c_study.Jobs.Semaphore
use c_study.Jobs.Semaphore.{BinarySemaphore}

-- `func` and `arg` stand for the function pointer and its argument.
pub record Job : Type 0 where
  pub next : Option ℕ
  pub func : ℕ
  pub arg : ℕ

pub record JobQueue : Type 0 where
  pub front : Option ℕ
  pub last : Option ℕ
  pub has_job : BinarySemaphore
  pub length : ℕ

abbrev pub Store : Type 0
Store = ℕ → Option Job

pub record Memory : Type 0 where
  pub jobs : Store
  pub queue : JobQueue

abbrev pub update : Store → ℕ → Option Job → Store
update jobs p job q = if p == q then job else jobs q

-- `p->next = next`
unfoldable pub set_next : Store → ℕ → Option ℕ → Option Store
set_next jobs p next = elim (jobs p) [
  | none ↦ none
  | some job ↦ some (update jobs p (some (record job { next = next })))
]

-- `jq->last->next = job`
unfoldable pub set_last_next : Store → Option ℕ → ℕ → Option Store
unfolding set_next
set_last_next jobs none p = none
set_last_next jobs (some last) p = set_next jobs last (some p)

unfoldable pub create : JobQueue
create = record { front = none; last = none; has_job = Semaphore.create; length = 0 }

-- The two writes of JobQueuePush to the list.
unfoldable pub enqueue : Store → JobQueue → ℕ → Option Memory
unfolding set_last_next
enqueue jobs jq p =
    if jq.length == 0
    then some (record { jobs = jobs; queue = record jq { front = some p; last = some p } })
    else (do
      jobs' ← set_last_next jobs jq.last p
      some (record { jobs = jobs'; queue = record jq { last = some p } }))

unfoldable pub posted : Memory → Memory
posted m = record m {
  queue = record m.queue {
    length = (m.queue.length + 1) % 2 ^ 64;
    has_job = Semaphore.post m.queue.has_job;
  };
}

-- JobQueuePush
unfoldable pub push : Memory → ℕ → Option Memory
unfolding enqueue
push m p = do jobs ← set_next m.jobs p none; m' ← enqueue jobs m.queue p; some (posted m')

-- The branch of JobQueuePull for two jobs or more.
unfoldable pub dequeue : Memory → Option ℕ → Option (Option ℕ × Memory)
dequeue m none = none
dequeue m (some p) = elim (m.jobs p) [
  | none ↦ none
  | some job ↦ some (
    some p,
    record m {
      queue = record m.queue {
        front = job.next;
        length = m.queue.length - 1;
        has_job = Semaphore.post m.queue.has_job;
      };
    },
  )
]

-- JobQueuePull: the job that it returns, or NULL, and the memory.
unfoldable pub pull : Memory → Option (Option ℕ × Memory)
pull m =
    if m.queue.length == 0
    then some (none, m)
    else (if m.queue.length == 1
        then some (
          m.queue.front,
          record m { queue = record m.queue { front = none; last = none; length = 0 } },
        )
        else dequeue m m.queue.front)

-- `free(j)`; releasing NULL does nothing.
unfoldable pub free_job : Option ℕ → Memory → Memory
free_job none m = m
free_job (some p) m = record m { jobs = update m.jobs p none }

-- The loop `while (jq->length > 0)` of JobQueueClear on fuel; `none` is a fault, or fuel that ran out.
unfoldable pub clear_loop : ℕ → Memory → Option Memory
clear_loop zero m = if m.queue.length == 0 then some m else none
clear_loop (suc fuel) m =
    let rest = (do (job, m') ← pull m; clear_loop fuel (free_job job m')) in
    if m.queue.length == 0 then some m else rest

-- JobQueueClear
unfoldable pub clear : Memory → Option Memory
clear m = do
  m' ← clear_loop m.queue.length m
  some (record m' {
    queue = record {
      front = none;
      last = none;
      has_job = Semaphore.reset m'.queue.has_job;
      length = 0;
    };
  })
