-- ===== src/Jobs/Refine.antt =====
-- JobQueuePush and JobQueuePull against a list of jobs.
use mathlib.Core.Option
use mathlib.Core.List.{head?, tail}
use c_study.Base.{
  ℕ, ◌+◌, ◌-◌, ◌^◌, ◌<◌, ◌≡◌, refl, sym, ◌≢◌, List, [], ◌∷◌, ◌++◌, Option, none, some, arith,
  length, length-append,
}
use c_study.Jobs.Queue.{
  Job, Store, Memory, update, set_next, set_last_next, enqueue, push, dequeue, pull, posted,
}
use c_study.Jobs.Semaphore.{post}
use c_study.Jobs.Segment.{
  Segment-update, Segment-append, Misses, IsDistinct, last_from, last_of, last_of-append,
  Represents,
}

-- What is to be run for the job at an address.
unfoldable pub task : Memory → ℕ → Option (ℕ × ℕ)
task m p = Option.map (λ (j : Job). (j.func, j.arg)) (m.jobs p)

Misses-append : (ps : List ℕ) (q p : ℕ) → Misses q ps → p ≢ q → Misses q (ps ++ p ∷ [])
Misses-append [] q p d e = (e, tt)
Misses-append (r ∷ ps) q p d e = (d.0, Misses-append ps q p d.1 e)

pub IsDistinct-append :
    (ps : List ℕ) (p : ℕ) → IsDistinct ps → Misses p ps → IsDistinct (ps ++ p ∷ [])
IsDistinct-append [] p d e = (tt, tt)
IsDistinct-append (q ∷ ps) p d e =
    (Misses-append ps q p d.0 (λ k. e.0 (sym k)), IsDistinct-append ps p d.1 e.1)

module _ (m : Memory) (p : ℕ) (job : Job) (here : m.jobs p ≡ some job) where
  abbrev new : Job
  new = record job { next = none }

  abbrev cleared : Store
  cleared = update m.jobs p (some new)

  set_next-cleared : set_next m.jobs p none ≡ some cleared
  unfolding set_next
  set_next-cleared = ground arith

  push_empty :
      m.queue.length ≡ 0
      → push m p
        ≡ some (
            posted
              (record { jobs = cleared; queue = record m.queue { front = some p; last = some p } }))
  unfolding push enqueue
  push_empty e = ground (arith, set_next-cleared)

  push_behind :
      (l : ℕ) (last : Job)
      → 0 < m.queue.length
      → m.queue.last ≡ some l
      → cleared l ≡ some last
      → push m p
        ≡ some (
            posted (record {
              jobs = update cleared l (some (record last { next = some p }));
              queue = record m.queue { last = some p };
            }))
  unfolding push enqueue set_last_next set_next
  push_behind l last e f g = ground (arith, set_next-cleared)

task-posted : (m : Memory) (q : ℕ) → task (posted m) q ≡ task m q
unfolding task posted
task-posted m q = refl

module _ (m : Memory) (p : ℕ) (job : Job) (here : m.jobs p ≡ some job) where
  push_nil :
      Represents m []
      → (m' : Memory) × (push m p ≡ some m')
        × Represents m' (p ∷ [])
        × ((q : ℕ) → task m' q ≡ task m q)
  unfolding last_of last_from posted post task
  push_nil r = (
    _,
    push_empty m p job here r.counted,
    record {
      segment = (new m p job here, refl, ground arith, refl);
      last = refl;
      counted = omega (arith, r.counted);
      distinct = (tt, tt);
      ready = λ _. refl;
    },
    λ q. ground arith,
  )

  push_cons :
      (a : ℕ) (ps : List ℕ)
      → Represents m (a ∷ ps)
      → Misses p (a ∷ ps)
      → length (a ∷ ps) + 1 < 2 ^ 64
      → (m' : Memory) × (push m p ≡ some m')
        × Represents m' ((a ∷ ps) ++ p ∷ [])
        × ((q : ℕ) → task m' q ≡ task m q)
  unfolding last_of posted post task
  push_cons a ps r d small =
      let (last, found, s) =
        Segment-append (cleared m p job here) m.queue.front a ps p (new m p job here) r.distinct d
          (ground arith) refl
          (Segment-update m.jobs m.queue.front (a ∷ ps) p (some (new m p job here)) d r.segment) in
      (
        _,
        push_behind m p job here (last_from a ps) last (omega (arith, r.counted)) r.last found,
        record {
          segment = s;
          last = sym (last_of-append (a ∷ ps) p);
          counted = omega (arith, r.counted, length-append ps (p ∷ []));
          distinct = IsDistinct-append (a ∷ ps) p r.distinct d;
          ready = λ _. refl;
        },
        λ q. ground arith,
      )

-- On memory whose queue holds the jobs `ps`, JobQueuePush of an allocated job that is not in the
-- queue, while the count stays below 2^64, succeeds: the queue then holds `ps` and that job at the end,
-- the semaphore is posted, and no job's function or argument changes.
pub push_lem :
    (m : Memory) (ps : List ℕ) (p : ℕ) (job : Job)
    → Represents m ps
    → m.jobs p ≡ some job
    → Misses p ps
    → length ps + 1 < 2 ^ 64
    → (m' : Memory) × (push m p ≡ some m')
      × Represents m' (ps ++ p ∷ [])
      × ((q : ℕ) → task m' q ≡ task m q)
push_lem m [] p job r here d small = push_nil m p job here r
push_lem m (a ∷ ps) p job r here d small = push_cons m p job here a ps r d small

-- On memory whose queue holds the jobs `ps`, JobQueuePull succeeds. It returns NULL and changes nothing
-- if there is none; otherwise it returns the first one, and the queue holds the others in their order,
-- with the semaphore posted as long as there are any. The store of jobs stays as it is.
pub pull_lem :
    (m : Memory) (ps : List ℕ)
    → Represents m ps
    → (m' : Memory) × (pull m ≡ some (head? ps, m')) × Represents m' (tail ps) × (m'.jobs ≡ m.jobs)
unfolding pull dequeue last_of last_from post
pull_lem m [] r = (m, ground (arith, r.counted), r, refl)
pull_lem m (p ∷ []) r = (
  record m { queue = record m.queue { front = none; last = none; length = 0 } },
  ground (arith, r.counted, r.segment),
  record {
    segment = refl;
    last = refl;
    counted = refl;
    distinct = tt;
    ready = λ h. absurd (omega arith);
  },
  refl,
)
pull_lem m (p ∷ q ∷ ps) r =
    let (job, first, found, rest) = r.segment in
    (
      record m {
        queue = record m.queue {
          front = job.next;
          length = m.queue.length - 1;
          has_job = post m.queue.has_job;
        };
      },
      ground (arith, r.counted),
      record {
        segment = rest;
        last = r.last;
        counted = omega (arith, r.counted);
        distinct = r.distinct.1;
        ready = λ _. refl;
      },
      refl,
    )
