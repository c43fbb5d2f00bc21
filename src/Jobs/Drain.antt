-- ===== src/Jobs/Drain.antt =====
-- Jobs come out in the order in which they went in, and JobQueueClear releases them all.
use mathlib.Core.Path.{subst}
use mathlib.Core.List.{append-nil, append_assoc}
use c_study.Base.{
  ℕ, zero, suc, ◌^◌, ◌<◌, ◌≡◌, refl, ◌≢◌, ◌∙◌, sym, ap, List, [], ◌∷◌, ◌++◌, Option, none, some,
  arith, length, length-append, ◌>>=◌, All, Option-cases, inl, inr,
}
use c_study.Jobs.Semaphore.{reset, wait}
use c_study.Jobs.Queue.{Job, Memory, push, pull, update, free_job, clear_loop, clear, create}
use c_study.Jobs.Segment.{Segment-update, Misses, IsDistinct, last_of, Represents}
use c_study.Jobs.Refine.{task, push_lem, pull_lem}

-- Push every job of the list, in order.
unfoldable pub push_all : List ℕ → Memory → Option Memory
push_all [] m = some m
push_all (p ∷ ps) m = do m' ← push m p; push_all ps m'

-- `n` calls of JobQueuePull, and the jobs that they return.
unfoldable pub pull_all : ℕ → Memory → Option (List (Option ℕ))
pull_all zero m = some []
pull_all (suc n) m = do (p, m') ← pull m; rest ← pull_all n m'; some (p ∷ rest)

abbrev pub somes : List ℕ → List (Option ℕ)
somes [] = []
somes (p ∷ ps) = some p ∷ somes ps

pull_all-somes :
    (ps : List ℕ) (m : Memory) → Represents m ps → pull_all (length ps) m ≡ some (somes ps)
unfolding pull_all
pull_all-somes [] m r = refl
pull_all-somes (p ∷ ps) m r =
    let (m', e, r', _) = pull_lem m (p ∷ ps) r in rw (e, pull_all-somes ps m' r')

free_job-Represents :
    (m : Memory) (p : ℕ) (ps : List ℕ)
    → Represents m ps
    → Misses p ps
    → Represents (free_job (some p) m) ps
unfolding free_job
free_job-Represents m p ps r d = record {
  segment = Segment-update m.jobs m.queue.front ps p none d r.segment;
  last = r.last;
  counted = r.counted;
  distinct = r.distinct;
  ready = r.ready;
}

free_job-jobs : (m : Memory) (p : ℕ) → ((free_job (some p) m).jobs ≡ update m.jobs p none)
unfolding free_job
free_job-jobs m p = refl

clear_loop-step :
    (n : ℕ) (m m' : Memory) (p : Option ℕ)
    → 0 < m.queue.length
    → pull m ≡ some (p, m')
    → clear_loop (suc n) m ≡ clear_loop n (free_job p m')
unfolding clear_loop
clear_loop-step n m m' p h e = ground arith

clear_loop_lem :
    (ps : List ℕ) (m : Memory)
    → Represents m ps
    → (m' : Memory) × (clear_loop (length ps) m ≡ some m')
      × ((a : ℕ) → Misses a ps → m'.jobs a ≡ m.jobs a)
      × All (λ p. m'.jobs p ≡ none) ps
unfolding clear_loop
clear_loop_lem [] m r = (m, ground (arith, r.counted), λ a _. refl, tt)
clear_loop_lem (p ∷ ps) m r =
    let (m1, e, r1, same) = pull_lem m (p ∷ ps) r in
    let m2 = free_job (some p) m1 in
    let (m', f, frame, freed) =
      clear_loop_lem ps m2 (free_job-Represents m1 p ps r1 r.distinct.0) in
    let now : (a : ℕ) → m2.jobs a ≡ update m.jobs p none a =
      λ a. ap (λ j. j a) (free_job-jobs m1 p) ∙ ap (λ j. update j p none a) same in
    (
      m',
      clear_loop-step (length ps) m m1 (some p) (omega (arith, r.counted)) e ∙ f,
      λ a d. frame a d.1 ∙ now a ∙ ground (arith, d.0),
      (frame p r.distinct.0 ∙ now p ∙ ground arith, freed),
    )

-- The assignments at the end of JobQueueClear.
unfoldable pub emptied : Memory → Memory
emptied m = record m {
  queue = record { front = none; last = none; has_job = reset m.queue.has_job; length = 0 };
}

clear-emptied :
    (m m' : Memory) → clear_loop m.queue.length m ≡ some m' → clear m ≡ some (emptied m')
unfolding clear emptied
clear-emptied m m' e = rw (e, clear)

-- JobQueueClear on a queue that holds the jobs `ps` ends: the queue is empty, its count is 0, a wait on
-- its semaphore sleeps, and of all jobs exactly those of `ps` are released.
pub clear_lem :
    (m : Memory) (ps : List ℕ)
    → Represents m ps
    → (m' : Memory) × (clear m ≡ some m')
      × Represents m' []
      × (wait m'.queue.has_job ≡ none)
      × ((a : ℕ) → Misses a ps → m'.jobs a ≡ m.jobs a)
      × All (λ p. m'.jobs p ≡ none) ps
unfolding emptied wait reset last_of
clear_lem m ps r =
    let (m', e, frame, freed) = clear_loop_lem ps m r in
    (
      emptied m',
      clear-emptied m m' (subst (λ n. clear_loop n m ≡ some m') (sym r.counted) e),
      record {
        segment = refl;
        last = refl;
        counted = refl;
        distinct = tt;
        ready = λ h. absurd (omega arith);
      },
      refl,
      frame,
      freed,
    )

abbrev pub Allocated : Memory → List ℕ → Type 0
Allocated m [] = Unit
Allocated m (p ∷ ps) = ((j : Job) × (m.jobs p ≡ some j)) × Allocated m ps

Allocated-same :
    (m m' : Memory) (ps : List ℕ)
    → ((q : ℕ) → task m' q ≡ task m q)
    → Allocated m ps
    → Allocated m' ps
unfolding task
Allocated-same m m' [] h a = tt
Allocated-same m m' (p ∷ ps) h a =
    let (j, e) = a.0 in
    let k = h p in
    (
      elim (Option-cases (m'.jobs p)) [ inl n ↦ absurd (ground arith) | inr x ↦ x ],
      Allocated-same m m' ps h a.1,
    )

Misses-middle : (xs ps : List ℕ) (p q : ℕ) → Misses q (xs ++ p ∷ ps) → p ≢ q
Misses-middle [] ps p q d = d.0
Misses-middle (x ∷ xs) ps p q d = Misses-middle xs ps p q d.1

IsDistinct-middle : (qs ps : List ℕ) (p : ℕ) → IsDistinct (qs ++ p ∷ ps) → Misses p qs
IsDistinct-middle [] ps p d = tt
IsDistinct-middle (q ∷ qs) ps p d =
    (λ e. Misses-middle qs ps p q d.0 (sym e), IsDistinct-middle qs ps p d.1)

push_all_lem :
    (ps qs : List ℕ) (m : Memory)
    → Represents m qs
    → Allocated m ps
    → IsDistinct (qs ++ ps)
    → length (qs ++ ps) < 2 ^ 64
    → (m' : Memory) × (push_all ps m ≡ some m') × Represents m' (qs ++ ps)
unfolding push_all
push_all_lem [] qs m r al d small = (m, refl, subst (Represents m) (sym (append-nil qs)) r)
push_all_lem (p ∷ ps) qs m r al d small =
    let (job, here) = al.0 in
    let (m1, e, r1, same) =
      push_lem m qs p job r here (IsDistinct-middle qs ps p d)
        (omega (arith, length-append qs (p ∷ ps))) in
    let shift : (qs ++ p ∷ []) ++ ps ≡ qs ++ p ∷ ps = append_assoc qs (p ∷ []) ps in
    let (m', f, r') =
      push_all_lem ps (qs ++ p ∷ []) m1 r1 (Allocated-same m m1 ps same al.1)
        (subst IsDistinct (sym shift) d) (subst (λ l. length l < 2 ^ 64) (sym shift) small) in
    (m', rw e f, subst (Represents m') shift r')

create-Represents : (m : Memory) → m.queue ≡ create → Represents m []
unfolding create last_of
create-Represents m e = record {
  segment = ap (λ q. q.front) e;
  last = ap (λ q. q.last) e;
  counted = ap (λ q. q.length) e;
  distinct = tt;
  ready = λ h. absurd (omega arith);
}

-- From a queue that JobQueueCreate made, pushing fewer than 2^64 different allocated jobs succeeds, and
-- as many calls of JobQueuePull then return exactly these jobs, in the order in which they were pushed.
pub fifo :
    (m : Memory) (ps : List ℕ)
    → m.queue ≡ create
    → Allocated m ps
    → IsDistinct ps
    → length ps < 2 ^ 64
    → (m' : Memory) × (push_all ps m ≡ some m') × (pull_all (length ps) m' ≡ some (somes ps))
fifo m ps e al d small =
    let (m', f, r) = push_all_lem ps [] m (create-Represents m e) al d small in
    (m', f, pull_all-somes ps m' r)
