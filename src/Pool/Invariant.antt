-- ===== src/Pool/Invariant.antt =====
-- What the counters of the pool count, in every state that the threads can reach.
use mathlib.Core.Path.{subst}
use c_study.Base.{
  ℕ, ◌+◌, ◌≤◌, ◌≡◌, refl, sym, ◌⊎◌, inl, List, [], ◌∷◌, true, false, Option, some, arith, length,
  length-append,
}
use c_study.Pool.Worker.{
  ThreadPool, Pc, starting, pulling, running, finishing, exiting, unlocking, returned, Work, start,
  stop, take, pull,
}
use c_study.Pool.System.{
  System, Client, creating, serving, destroying, freed, Step, work, created, submit, destroy,
  post_all, release, Reach, here, next, init, add_task,
}
use c_study.Base.Threads.{
  worker, set_worker, weigh, weigh-set_worker, weigh-worker, weigh-replicate,
}

-- Not yet counted in `alive_threads`.
abbrev pub fresh : Pc → ℕ
fresh starting = 1
fresh _ = 0

-- Between the two writes to `alive_threads`.
abbrev pub lives : Pc → ℕ
lives starting = 0
lives unlocking = 0
lives returned = 0
lives _ = 1

-- After the second one.
abbrev pub ended : Pc → ℕ
ended unlocking = 1
ended returned = 1
ended _ = 0

-- Between the two writes to `working_threads`.
abbrev pub works : Pc → ℕ
works pulling = 1
works (running _) = 1
works finishing = 1
works _ = 0

-- With a task in hand that has not run.
abbrev pub holds : Pc → ℕ
holds (running (some _)) = 1
holds _ = 0

-- Out of the loop of Worker.
abbrev pub leaves : Pc → ℕ
leaves exiting = 1
leaves unlocking = 1
leaves returned = 1
leaves _ = 0

-- The counters of a pool whose workers stand at `ps`.
pub record Counted (n : ℕ) (s : ThreadPool) (ps : List Pc) : Type 0 where
  pub all : weigh fresh ps + weigh lives ps + weigh ended ps ≡ n
  pub alive_count : s.alive_threads ≡ weigh lives ps
  pub working_count : s.working_threads ≡ weigh works ps
  pub stay : s.alive ≡ true → weigh leaves ps ≡ 0
  pub ready : (s.jobs ≡ []) ⊎ (s.has_job ≡ true)
  pub size : s.thread_num ≡ n

abbrev pub Tasks : ThreadPool → List Pc → Type 0
Tasks s ps = s.submitted ≡ s.finished + length s.jobs + weigh holds ps

-- What holds in each phase of the client.
abbrev pub Phase : Client → ThreadPool → List Pc → Type 0
Phase creating s ps = (s.alive ≡ true) × Tasks s ps
Phase serving s ps = (s.alive ≡ true) × Tasks s ps × (weigh fresh ps ≡ 0)
Phase destroying s ps = (s.alive ≡ false) × Tasks s ps × (weigh fresh ps ≡ 0)
Phase freed s ps = (s.alive ≡ false) × (s.alive_threads ≡ 0) × (weigh fresh ps ≡ 0)

-- The sums before and after one worker moves from `p` to `p'`.
record Moved (ps qs : List Pc) (p p' : Pc) : Type 0 where
  f : weigh fresh qs + fresh p ≡ weigh fresh ps + fresh p'
  l : weigh lives qs + lives p ≡ weigh lives ps + lives p'
  e : weigh ended qs + ended p ≡ weigh ended ps + ended p'
  w : weigh works qs + works p ≡ weigh works ps + works p'
  h : weigh holds qs + holds p ≡ weigh holds ps + holds p'
  v : weigh leaves qs + leaves p ≡ weigh leaves ps + leaves p'

moved :
    (ps : List Pc) (i : ℕ) (p p' : Pc) → worker ps i ≡ some p → Moved ps (set_worker ps i p') p p'
moved ps i p p' h = record {
  f = weigh-set_worker fresh ps i p p' h;
  l = weigh-set_worker lives ps i p p' h;
  e = weigh-set_worker ended ps i p p' h;
  w = weigh-set_worker works ps i p p' h;
  h = weigh-set_worker holds ps i p p' h;
  v = weigh-set_worker leaves ps i p p' h;
}

-- What JobQueuePull changes, on a queue that holds `js`.
record Pulled (s t : ThreadPool) (js : List ℕ) (task : Option ℕ) : Type 0 where
  alive : t.alive ≡ s.alive
  alive_threads : t.alive_threads ≡ s.alive_threads
  working_threads : t.working_threads ≡ s.working_threads
  thread_num : t.thread_num ≡ s.thread_num
  ready : (t.jobs ≡ []) ⊎ (t.has_job ≡ true)
  submitted : t.submitted ≡ s.submitted
  finished : t.finished ≡ s.finished
  taken : length t.jobs + holds (running task) ≡ length js

pull-Pulled : (s : ThreadPool) (js : List ℕ) → s.jobs ≡ js → Pulled s (pull s js).1 js (pull s js).0
unfolding pull
pull-Pulled s [] e = ground arith
pull-Pulled s (j ∷ []) e = ground arith
pull-Pulled s (j ∷ k ∷ js) e = ground arith

module _ {n : ℕ} {s : ThreadPool} {ps qs : List Pc} where
  Work-Counted :
      {t : ThreadPool} {p p' : Pc}
      → Work s p t p'
      → Moved ps qs p p'
      → Counted n s ps
      → Counted n t qs
  Work-Counted start m c = ground arith
  Work-Counted (stop q) m c = ground arith
  Work-Counted take m c = ground (arith, pull-Pulled s s.jobs refl)
  Work-Counted mv m c = ground arith

  Work-Phase :
      {t : ThreadPool} {p p' : Pc}
      → Work s p t p'
      → (c : Client) → Moved ps qs p p'
      → Counted n s ps
      → fresh p ≤ weigh fresh ps
      → lives p ≤ weigh lives ps
      → Phase c s ps
      → Phase c t qs
  Work-Phase start creating m k a b h = ground arith
  Work-Phase take creating m k a b h = ground (arith, pull-Pulled s s.jobs refl)
  Work-Phase take serving m k a b h = ground (arith, pull-Pulled s s.jobs refl)
  Work-Phase take destroying m k a b h = ground (arith, pull-Pulled s s.jobs refl)
  Work-Phase take freed m k a b h = ground (arith, pull-Pulled s s.jobs refl)
  Work-Phase mv c m k a b h = ground arith

-- Every step of the system keeps the counters right.
pub record Inv (n : ℕ) (s : System) : Type 0 where
  pub counted : Counted n s.pool s.workers
  pub phase : Phase s.client s.pool s.workers

abbrev At : Client → System → Type 0
At c s = s.client ≡ c

Inv-init : (n : ℕ) → Inv n (init n)
Inv-init n = record {
  counted = record {
    all = omega (
      arith,
      weigh-replicate fresh n starting,
      weigh-replicate lives n starting,
      weigh-replicate ended n starting,
    );
    alive_count = omega (arith, weigh-replicate lives n starting);
    working_count = omega (arith, weigh-replicate works n starting);
    stay = λ _. omega (arith, weigh-replicate leaves n starting);
    ready = inl refl;
    size = refl;
  };
  phase = (refl, omega (arith, weigh-replicate holds n starting));
}

pub Phase-at : (s : ThreadPool) (ps : List Pc) {c d : Client} → c ≡ d → Phase c s ps → Phase d s ps
Phase-at s ps e h = subst (λ k. Phase k s ps) e h

pub Step-Inv : {n : ℕ} {s t : System} → Step s t → Inv n s → Inv n t
unfolding add_task
Step-Inv {s} (work i {p} {p'} e mv) v =
    let m = moved s.workers i p p' e in
    record {
      counted = Work-Counted mv m v.counted;
      phase =
          Work-Phase mv s.client m v.counted (weigh-worker fresh s.workers i p e)
            (weigh-worker lives s.workers i p e) v.phase;
    }
Step-Inv {s} (created e q) v =
    let h = Phase-at s.pool s.workers e v.phase in
    record { counted = v.counted; phase = (h.0, h.1, ground (arith, v.counted)) }
Step-Inv {s} (submit j e) v =
    let h = Phase-at s.pool s.workers e v.phase in
    record {
      counted = ground arith;
      phase =
          subst (λ k. Phase k (add_task s.pool j) s.workers) (sym e)
            (h.0, omega (arith, length-append s.pool.jobs (j ∷ [])), h.2);
    }
Step-Inv {s} (destroy e) v =
    let h = Phase-at s.pool s.workers e v.phase in
    record { counted = ground arith; phase = (refl, h.1, h.2) }
Step-Inv {s} (post_all e q) v =
    let h = Phase-at s.pool s.workers e v.phase in
    record {
      counted = ground arith;
      phase = subst (λ k. Phase k (record s.pool { has_job = true }) s.workers) (sym e) h;
    }
Step-Inv {s} (release e q) v =
    let h = Phase-at s.pool s.workers e v.phase in
    record { counted = ground arith; phase = (h.0, q, h.2) }

pub Reach-Inv : {n : ℕ} {s : System} → Reach n s → Inv n s
Reach-Inv {n} here = Inv-init n
Reach-Inv (next r st) = Step-Inv st (Reach-Inv r)
