-- ===== src/Pool/Started.antt =====
-- ThreadPoolCreate of thread_pool02/thread_pool.c, from the loop over ThreadCreate to its last loop.
use mathlib.Core.Path.{subst}
use mathlib.Core.List.{append-nil}
use native.Mathlib.Decide.{dec_lt}
use c_study.Base.{
  ℕ, zero, suc, ◌+◌, ◌≤◌, ◌<◌, ◌≡◌, refl, sym, ap, ◌∙◌, inl, inr, List, [], ◌∷◌, ◌++◌, Bool, true,
  false, some, Bool-cases, arith,
}
use c_study.Base.Threads.{set_worker, weigh, weigh-set_worker, weigh-worker, replicate}
use c_study.Pool.Worker.{ThreadPool, Pc, starting, Work, start, take, pull}
use c_study.Pool.System.{
  System, creating, init, Step, work, created, submit, destroy, post_all, release,
}
use c_study.Pool.Invariant.{fresh, lives}
use c_study.Pool.Release.{Run, done, then_step}
use c_study.Pool.Blocks.{
  Blocks, no_blocks, create_thread, create_threads, Made, create_queue, create_with_queue,
  create_pool, free_pool, destroy_queue,
}

create_thread-fresh :
    (gives : Blocks) (i : ℕ) (made : Blocks × List Pc)
    → (weigh fresh (create_thread gives i made).1 ≤ weigh fresh made.1 + 1)
      × (weigh lives (create_thread gives i made).1 ≡ weigh lives made.1)
      × (gives.thread i ≡ false → weigh fresh (create_thread gives i made).1 ≤ weigh fresh made.1)
unfolding create_thread weigh
create_thread-fresh gives i (live, ps) = elim (Bool-cases (gives.thread i)) [
  | inl e ↦ rw e (omega arith, omega arith, λ f. cc)
  | inr e ↦ rw e (omega arith, refl, λ f. omega arith)
]

-- The loop starts at most one thread in a round.
create_threads-fresh :
    (gives : Blocks) (k i : ℕ) (made : Blocks × List Pc)
    → (weigh fresh (create_threads gives k i made).1 ≤ weigh fresh made.1 + k)
      × (weigh lives (create_threads gives k i made).1 ≡ weigh lives made.1)
unfolding create_threads
create_threads-fresh gives zero i made = (omega arith, refl)
create_threads-fresh gives (suc k) i made =
    let (a, b) = create_threads-fresh gives k (i + 1) (create_thread gives i made) in
    let (c, d, e) = create_thread-fresh gives i made in (omega (arith, a, c), b ∙ d)

-- It starts fewer threads than it makes rounds if one allocation fails.
create_threads-fewer :
    (gives : Blocks) (k i id : ℕ) (made : Blocks × List Pc)
    → i ≤ id
    → id < i + k
    → gives.thread id ≡ false
    → weigh fresh (create_threads gives k i made).1 < weigh fresh made.1 + k
unfolding create_threads
create_threads-fewer gives zero i id made l h f = absurd (omega (arith, l, h))
create_threads-fewer gives (suc k) i id made l h f =
    let next = create_thread gives i made in
    let (a, b) = create_threads-fresh gives k (i + 1) next in
    let (c, d, e) = create_thread-fresh gives i made in
    elim (dec_lt i id) [
      | yes m ↦ omega (
        arith,
        create_threads-fewer gives k (i + 1) id next (omega arith) (omega (arith, h)) f,
        c,
      )
      | no m ↦ let same : i ≡ id = omega arith in omega (arith, a, e (ap gives.thread same ∙ f))
    ]

replicate-snoc :
    {A : Type 0} (k : ℕ) (p : A) (ps : List A) → replicate k p ++ p ∷ ps ≡ p ∷ (replicate k p ++ ps)
replicate-snoc zero p ps = refl
replicate-snoc (suc k) p ps = ap (◌∷◌ p) (replicate-snoc k p ps)

-- Where no allocation fails, it starts one in each round.
create_threads-replicate :
    (gives : Blocks) (k i : ℕ) (live : Blocks) (ps : List Pc)
    → ((id : ℕ) → i ≤ id → id < i + k → gives.thread id ≡ true)
    → (create_threads gives k i (live, ps)).1 ≡ replicate k starting ++ ps
unfolding create_threads create_thread
create_threads-replicate gives zero i live ps h = refl
create_threads-replicate gives (suc k) i live ps h =
    rw (h i (omega arith) (omega arith), create_threads)
      (create_threads-replicate gives k (i + 1) _ (starting ∷ ps)
          (λ id l m. h id (omega (arith, l)) (omega (arith, m)))
        ∙ replicate-snoc k starting ps)

-- The pool still waits in ThreadPoolCreate for `n` threads, and fewer can come.
record Waits (n : ℕ) (s : System) : Type 0 where
  client : s.client ≡ creating
  thread_num : s.pool.thread_num ≡ n
  alive_threads : s.pool.alive_threads ≡ weigh lives s.workers
  fewer : weigh fresh s.workers + weigh lives s.workers < n

pull-same :
    (s : ThreadPool) (js : List ℕ)
    → ((pull s js).1.thread_num ≡ s.thread_num) × ((pull s js).1.alive_threads ≡ s.alive_threads)
unfolding pull
pull-same s [] = (refl, refl)
pull-same s (j ∷ []) = (refl, refl)
pull-same s (j ∷ k ∷ js) = (refl, refl)

Work-Waits :
    {n : ℕ} {s t : ThreadPool} {p p' : Pc} (ps qs : List Pc)
    → Work s p t p'
    → weigh fresh qs + fresh p ≡ weigh fresh ps + fresh p'
    → weigh lives qs + lives p ≡ weigh lives ps + lives p'
    → lives p ≤ weigh lives ps
    → s.thread_num ≡ n
    → s.alive_threads ≡ weigh lives ps
    → weigh fresh ps + weigh lives ps < n
    → (t.thread_num ≡ n)
      × (t.alive_threads ≡ weigh lives qs)
      × (weigh fresh qs + weigh lives qs < n)
Work-Waits {s} ps qs take f l a h k m = ground (arith, pull-same s s.jobs)
Work-Waits ps qs start f l a h k m = ground arith
Work-Waits ps qs mv f l a h k m = ground arith

Step-Waits : {n : ℕ} {s t : System} → Step s t → Waits n s → Waits n t
Step-Waits {s} (work i {p} {p'} e mv) v =
    let (a, b, c) =
      Work-Waits s.workers (set_worker s.workers i p') mv
        (weigh-set_worker fresh s.workers i p p' e) (weigh-set_worker lives s.workers i p p' e)
        (weigh-worker lives s.workers i p e) v.thread_num v.alive_threads v.fewer in
    record { client = v.client; thread_num = a; alive_threads = b; fewer = c }
Step-Waits (created e q) v = absurd (omega (arith, v.thread_num, v.alive_threads, v.fewer, q))
Step-Waits (submit j e) v = let c = v.client in cc
Step-Waits (destroy e) v = let c = v.client in cc
Step-Waits (post_all e q) v = let c = v.client in cc
Step-Waits (release e q) v = let c = v.client in cc

Run-Waits : {n : ℕ} {s t : System} → Run s t → Waits n s → Waits n t
Run-Waits done v = v
Run-Waits (then_step run step) v = Step-Waits step (Run-Waits run v)

make-Waits :
    (gives : Blocks) (n id : ℕ) (live : Blocks)
    → id < n
    → gives.thread id ≡ false
    → Waits n (record (init n) { workers = (create_threads gives n 0 (live, [])).1 })
unfolding weigh
make-Waits gives n id live h e =
    let (a, b) = create_threads-fresh gives n 0 (live, []) in
    record {
      client = refl;
      thread_num = refl;
      alive_threads = sym b;
      fewer = omega (
        arith,
        b,
        create_threads-fewer gives n 0 id (live, []) (omega arith) (omega (arith, h)) e,
      );
    }

-- A pool that ThreadPoolCreate makes is the one whose threads the loop has started.
create_with_queue-workers :
    (gives : Blocks) (n : ℕ) (b : Bool) (queue : Blocks) (made : Made) (live : Blocks)
    → create_with_queue gives n (b, queue) ≡ some (some made, live)
    → made.system ≡ record (init n) {
      workers = (create_threads gives n 0 (record queue { threads = true }, [])).1;
    }
unfolding create_with_queue free_pool destroy_queue
create_with_queue-workers gives n false queue made live e = ground arith
create_with_queue-workers gives n true queue made live e = ground arith

create_pool-workers :
    (gives : Blocks) (n : ℕ) (made : Made) (live : Blocks)
    → create_pool gives n ≡ some (some made, live)
    → (queue : Blocks) × (made.system
        ≡ record (init n) { workers = (create_threads gives n 0 (queue, [])).1 })
unfolding create_pool create_queue
create_pool-workers gives n made live e = elim (Bool-cases gives.pool) [
  | inl p ↦
      let q = create_queue gives (record no_blocks { pool = true }) in
      let f : create_with_queue gives n q ≡ create_pool gives n = rw p refl in
      (record q.1 { threads = true }, create_with_queue-workers gives n q.0 q.1 made live (f ∙ e))
  | inr p ↦ ground arith
]

-- Where the allocations of ThreadCreate all succeed, a pool that ThreadPoolCreate makes is the initial state of
-- the pool with all its threads.
pub create_pool-init :
    (gives : Blocks) (n : ℕ) (made : Made) (live : Blocks)
    → create_pool gives n ≡ some (some made, live)
    → ((id : ℕ) → id < n → gives.thread id ≡ true)
    → made.system ≡ init n
create_pool-init gives n made live e h =
    let (queue, f) = create_pool-workers gives n made live e in
    let all = create_threads-replicate gives n 0 queue [] (λ id l m. h id (omega (arith, m))) in
    f ∙ ap (λ ps. record (init n) { workers = ps }) (all ∙ append-nil (replicate n starting))

-- If one of the allocations of ThreadCreate fails, ThreadPoolCreate never returns, whatever its threads do: it
-- waits in its last loop for more threads than it has started.
pub create_pool-creating :
    (gives : Blocks) (num_threads id : ℕ) (made : Made) (live : Blocks) (s : System)
    → create_pool gives num_threads ≡ some (some made, live)
    → id < num_threads
    → gives.thread id ≡ false
    → Run made.system s
    → s.client ≡ creating
create_pool-creating gives n id made live s e h f run =
    let (queue, q) = create_pool-workers gives n made live e in
    (Run-Waits run (subst (Waits n) (sym q) (make-Waits gives n id queue h f))).client
