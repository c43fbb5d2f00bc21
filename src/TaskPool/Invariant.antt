-- ===== src/TaskPool/Invariant.antt =====
-- What the counters of the pool of thread_pool01 count, in every state that the threads can reach.
use mathlib.Core.Path.{subst}
use c_study.Base.{
  ℕ, zero, suc, ◌+◌, ◌≤◌, ◌≡◌, refl, sym, List, [], ◌∷◌, Bool, true, false, some, arith, length,
  length-append, All, All-map,
}
use c_study.Base.Threads.{
  worker, set_worker, replicate, weigh, weigh-set_worker, weigh-worker, weigh-replicate,
}
use c_study.TaskPool.Worker.{
  ThreadPool, Pc, testing, performing, finishing, leaving, storing, signalling, unlocking, returned,
  Work, loop, stop, take, break, finish, read, write, signal, unlock, unlock_other, wait_returns,
}
use c_study.TaskPool.System.{
  System, Client, serving, destroying, freed, Step, work, submit, destroy, release, Reach, here,
  next, init, append_task, shut_down,
}

-- Before its write to `thread_count`.
abbrev pub counted : Pc → ℕ
counted (signalling _) = 0
counted (unlocking _) = 0
counted returned = 0
counted _ = 1

-- Between its two writes to `working_count`.
abbrev pub works : Pc → ℕ
works (performing _) = 1
works finishing = 1
works _ = 0

-- With a task in hand that has not run.
abbrev pub holds : Pc → ℕ
holds (performing _) = 1
holds _ = 0

-- On its way out with the mutex.
abbrev pub locks : Pc → ℕ
locks (leaving true) = 1
locks (storing true _) = 1
locks (signalling true) = 1
locks (unlocking true) = 1
locks _ = 0

-- Out of its loop.
abbrev pub leaves : Pc → ℕ
leaves (leaving _) = 1
leaves (storing _ _) = 1
leaves (signalling _) = 1
leaves (unlocking _) = 1
leaves returned = 1
leaves _ = 0

-- What a thread has read of `thread_count` is at least the number of threads still counted.
abbrev pub Fresh : ℕ → Pc → Type 0
Fresh n (storing _ count) = n ≤ count
Fresh n _ = Unit

abbrev pub bit : Bool → ℕ
bit true = 1
bit false = 0

pub record Counts (s : ThreadPool) (ps : List Pc) : Type 0 where
  pub working : s.working_count ≡ weigh works ps
  pub threads : weigh counted ps ≤ s.thread_count
  pub fresh : All (Fresh (weigh counted ps)) ps
  pub lock : bit s.held ≤ weigh locks ps
  pub stay : s.running ≡ true → weigh leaves ps ≡ 0

-- What holds in each phase of the client.
abbrev pub Phase : Client → ThreadPool → List Pc → Type 0
Phase serving s ps =
    (s.running ≡ true) × (s.submitted ≡ s.finished + length s.tasks + weigh holds ps)
Phase destroying s ps = s.running ≡ false
Phase freed s ps = (s.running ≡ false) × (weigh counted ps ≡ 0)

-- The sums before and after one thread moves from `p` to `p'`.
record Moved (ps qs : List Pc) (p p' : Pc) : Type 0 where
  c : weigh counted qs + counted p ≡ weigh counted ps + counted p'
  w : weigh works qs + works p ≡ weigh works ps + works p'
  h : weigh holds qs + holds p ≡ weigh holds ps + holds p'
  l : weigh locks qs + locks p ≡ weigh locks ps + locks p'
  v : weigh leaves qs + leaves p ≡ weigh leaves ps + leaves p'
  cp : counted p ≤ weigh counted ps
  lp : locks p ≤ weigh locks ps
  wp : works p ≤ weigh works ps

moved :
    (ps : List Pc) (i : ℕ) (p p' : Pc) → worker ps i ≡ some p → Moved ps (set_worker ps i p') p p'
moved ps i p p' e = record {
  c = weigh-set_worker counted ps i p p' e;
  w = weigh-set_worker works ps i p p' e;
  h = weigh-set_worker holds ps i p p' e;
  l = weigh-set_worker locks ps i p p' e;
  v = weigh-set_worker leaves ps i p p' e;
  cp = weigh-worker counted ps i p e;
  lp = weigh-worker locks ps i p e;
  wp = weigh-worker works ps i p e;
}

-- What is fresh stays fresh when fewer threads are counted.
Fresh-le : {m n : ℕ} (p : Pc) → m ≤ n → Fresh n p → Fresh m p
Fresh-le (storing locked count) h f = omega arith
Fresh-le p h f = ground arith

All-set_worker :
    {m n : ℕ} (ps : List Pc) (i : ℕ) (p : Pc)
    → m ≤ n
    → Fresh m p
    → All (Fresh n) ps
    → All (Fresh m) (set_worker ps i p)
All-set_worker [] i p h f a = tt
All-set_worker (q ∷ ps) zero p h f a = (f, All-map _ _ (λ r. Fresh-le r h) ps a.1)
All-set_worker (q ∷ ps) (suc i) p h f a = (Fresh-le q h a.0, All-set_worker ps i p h f a.1)

Fresh-worker :
    (n : ℕ) (ps : List Pc) (i : ℕ) (p : Pc) → All (Fresh n) ps → worker ps i ≡ some p → Fresh n p
Fresh-worker n (q ∷ ps) zero p a e = subst (Fresh n) (cc e) a.0
Fresh-worker n (q ∷ ps) (suc i) p a e = Fresh-worker n ps i p a.1 e
Fresh-worker n [] i p a e = cc

module _ {s : ThreadPool} where
  -- No step makes a thread counted again.
  Work-counted : {t : ThreadPool} {p p' : Pc} → Work s p t p' → counted p' ≤ counted p
  Work-counted (loop e) = omega arith
  Work-counted mv = ground arith

  -- A read of `thread_count` is fresh.
  Work-Fresh :
      {t : ThreadPool} {p p' : Pc} (m : ℕ) → Work s p t p' → m ≤ s.thread_count → Fresh m p'
  Work-Fresh m read h = h
  Work-Fresh m mv h = ground arith

  Work-Counts :
      {t : ThreadPool} {p p' : Pc} {ps qs : List Pc}
      → Work s p t p'
      → Moved ps qs p p'
      → Counts s ps
      → Fresh (weigh counted ps) p
      → All (Fresh (weigh counted qs)) qs
      → Counts t qs
  Work-Counts (loop e) m c f a = ground arith
  Work-Counts (stop e) m c f a = ground arith
  Work-Counts (write {locked = true}) m c f a = ground arith
  Work-Counts (write {locked = false}) m c f a = ground arith
  Work-Counts (read {locked = true}) m c f a = ground arith
  Work-Counts (read {locked = false}) m c f a = ground arith
  Work-Counts (signal {locked = true}) m c f a = ground arith
  Work-Counts (signal {locked = false}) m c f a = ground arith
  Work-Counts unlock_other m c f a = ground arith
  Work-Counts (take h r e) m c f a = ground arith
  Work-Counts (break h r) m c f a = ground arith
  Work-Counts (finish h) m c f a = ground arith
  Work-Counts mv m c f a = ground arith

  Work-Phase :
      {t : ThreadPool} {p p' : Pc} {ps qs : List Pc}
      → Work s p t p'
      → (k : Client) → Moved ps qs p p'
      → Phase k s ps
      → Phase k t qs
  Work-Phase (take h r e) serving m f = ground arith
  Work-Phase (take h r e) destroying m f = ground arith
  Work-Phase (take h r e) freed m f = ground arith
  Work-Phase (break h r) serving m f = ground arith
  Work-Phase (unlock) freed m f = ground arith
  Work-Phase mv k m f = ground arith

-- Every step of the system keeps the counters right.
pub record Inv (s : System) : Type 0 where
  pub counts : Counts s.pool s.workers
  pub phase : Phase s.client s.pool s.workers

Fresh-replicate : (n k : ℕ) → All (Fresh n) (replicate k testing)
Fresh-replicate n zero = tt
Fresh-replicate n (suc k) = (tt, Fresh-replicate n k)

Inv-init : (num : ℕ) → Inv (init num)
Inv-init num = record {
  counts = record {
    working = omega (arith, weigh-replicate works num testing);
    threads = omega (arith, weigh-replicate counted num testing);
    fresh = Fresh-replicate (weigh counted (replicate num testing)) num;
    lock = omega (arith, weigh-replicate locks num testing);
    stay = λ _. omega (arith, weigh-replicate leaves num testing);
  };
  phase = (refl, omega (arith, weigh-replicate holds num testing));
}

pub Phase-at : (s : ThreadPool) (ps : List Pc) {c d : Client} → c ≡ d → Phase c s ps → Phase d s ps
Phase-at s ps e h = subst (λ k. Phase k s ps) e h

-- ThreadPoolWait returns from a pool that is shut down only when no thread is counted.
pub wait_returns-shut_down :
    (s : ThreadPool) → s.running ≡ false → wait_returns s ≡ true → s.thread_count ≡ 0
unfolding wait_returns
wait_returns-shut_down s h w = ground arith

pub Step-Inv : {s t : System} → Step s t → Inv s → Inv t
unfolding append_task shut_down
Step-Inv {s} (work i {p} {p'} e mv) v =
    let m = moved s.workers i p p' e in
    let f = Fresh-worker (weigh counted s.workers) s.workers i p v.counts.fresh e in
    let fewer : weigh counted (set_worker s.workers i p') ≤ weigh counted s.workers =
      omega (arith, m.c, Work-counted mv) in
    let read_now =
      Work-Fresh (weigh counted (set_worker s.workers i p')) mv
        (omega (arith, fewer, v.counts.threads)) in
    record {
      counts =
          Work-Counts mv m v.counts f (All-set_worker s.workers i p' fewer read_now v.counts.fresh);
      phase = Work-Phase mv s.client m v.phase;
    }
Step-Inv {s} (submit task e free) v =
    let h = Phase-at s.pool s.workers e v.phase in
    record {
      counts = ground arith;
      phase =
          subst (λ k. Phase k (append_task s.pool task) s.workers) (sym e)
            (h.0, omega (arith, length-append s.pool.tasks (task ∷ [])));
    }
Step-Inv {s} (destroy e free) v = record { counts = ground arith; phase = refl }
Step-Inv {s} (release e free done) v =
    let h = Phase-at s.pool s.workers e v.phase in
    record {
      counts = v.counts;
      phase = (h, ground (arith, v.counts, wait_returns-shut_down s.pool h done));
    }

pub Reach-Inv : {num : ℕ} {s : System} → Reach num s → Inv s
Reach-Inv {num} here = Inv-init num
Reach-Inv (next r st) = Step-Inv st (Reach-Inv r)
