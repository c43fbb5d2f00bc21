-- ===== src/TaskPool/Hang.antt =====
-- How ThreadPoolDestory comes to wait for ever: a lost decrement of `thread_count`.
use mathlib.Core.Path.{subst}
use mathlib.Core.List.{append_assoc}
use c_study.Base.{
  ℕ, zero, suc, ◌≡◌, refl, sym, List, [], ◌∷◌, ◌++◌, false, length, arith, All, All-append,
}
use c_study.Base.Threads.{replicate, worker_append, set_worker_append}
use c_study.TaskPool.Worker.{
  ThreadPool, Pc, testing, leaving, storing, signalling, unlocking, returned, Work, stop, read,
  write, signal, unlock_unheld,
}
use c_study.TaskPool.System.{System, destroying, Step, work, destroy, Reach, here, next, shut_down}
use c_study.TaskPool.Safety.{IsHung, hung_no_step}

abbrev closing : ℕ → ThreadPool
closing count = record {
  tasks = [];
  held = false;
  working_count = 0;
  thread_count = count;
  running = false;
  submitted = 0;
  finished = 0;
}

-- ThreadPoolDestory waits.
abbrev waiting : ThreadPool → List Pc → System
waiting pool ps = record { pool = pool; workers = ps; client = destroying }

abbrev IsReturned : Pc → Type 0
IsReturned p = p ≡ returned

module _ (num : ℕ) where
  step_at :
      (pool : ThreadPool) (xs ys : List Pc) {p q : Pc} {pool' : ThreadPool}
      → Reach num (waiting pool (xs ++ p ∷ ys))
      → Work pool p pool' q
      → Reach num (waiting pool' (xs ++ q ∷ ys))
  step_at pool xs ys {p} {q} {pool'} r w =
      subst (λ ps. Reach num (waiting pool' ps)) (set_worker_append xs p q ys)
        (next r (work (length xs) (worker_append xs p ys) w))

  -- A thread alone counts itself out.
  leave_one :
      (m : ℕ) (xs ys : List Pc)
      → Reach num (waiting (closing (suc m)) (xs ++ testing ∷ ys))
      → Reach num (waiting (closing m) (xs ++ returned ∷ ys))
  leave_one m xs ys r =
      let a = step_at (closing (suc m)) xs ys r (stop refl) in
      let b = step_at (closing (suc m)) xs ys a read in
      let c = step_at (closing (suc m)) xs ys b write in
      let e = step_at _ xs ys c signal in
      let d = step_at _ xs ys e unlock_unheld in
      subst (λ k. Reach num (waiting (closing k) (xs ++ returned ∷ ys))) (omega arith) d

  second :
      (pool : ThreadPool) (xs : List Pc) (o : Pc) {p q : Pc} {pool' : ThreadPool}
      → Reach num (waiting pool (xs ++ o ∷ p ∷ []))
      → Work pool p pool' q
      → Reach num (waiting pool' (xs ++ o ∷ q ∷ []))
  second pool xs o {p} {q} {pool'} r w =
      subst (λ ps. Reach num (waiting pool' ps)) (append_assoc xs (o ∷ []) (q ∷ []))
        (step_at pool (xs ++ o ∷ []) []
          (subst (λ ps. Reach num (waiting pool ps)) (sym (append_assoc xs (o ∷ []) (p ∷ []))) r) w)

  -- The last two read `thread_count` before either of them writes it.
  leave_two :
      (xs : List Pc)
      → Reach num (waiting (closing 2) (xs ++ testing ∷ testing ∷ []))
      → Reach num (waiting (closing 1) (xs ++ returned ∷ returned ∷ []))
  leave_two xs r =
      let a = step_at (closing 2) xs (testing ∷ []) r (stop refl) in
      let b = second (closing 2) xs (leaving false) a (stop refl) in
      let c = step_at (closing 2) xs (leaving false ∷ []) b read in
      let d = second (closing 2) xs (storing false 2) c read in
      let e = step_at (closing 2) xs (storing false 2 ∷ []) d write in
      let f = second (closing 1) xs (signalling false) e write in
      let g = step_at (closing 1) xs (signalling false ∷ []) f signal in
      let h = second (closing 1) xs (unlocking false) g signal in
      let k = step_at (closing 1) xs (unlocking false ∷ []) h unlock_unheld in
      second (closing 1) xs returned k unlock_unheld

  leave_all :
      (m : ℕ) (xs : List Pc)
      → All IsReturned xs
      → Reach num (waiting (closing (suc (suc m))) (xs ++ replicate (suc (suc m)) testing))
      → (s : System) × Reach num s × IsHung s
  leave_all zero xs a r = (
    _,
    leave_two xs r,
    record {
      client = refl;
      shut = refl;
      over =
          subst (All IsReturned) (append_assoc xs (returned ∷ []) (returned ∷ []))
            (All-append IsReturned refl (xs ++ returned ∷ []) (All-append IsReturned refl xs a));
      count = λ e. omega arith;
    },
  )
  leave_all (suc m) xs a r = leave_all m (xs ++ returned ∷ []) (All-append IsReturned refl xs a) (
      subst (λ ps. Reach num (waiting (closing (suc (suc m))) ps))
        (sym (append_assoc xs (returned ∷ []) (replicate (suc (suc m)) testing)))
        (leave_one (suc (suc m)) xs (replicate (suc (suc m)) testing) r))

-- For every number of threads from two on there is a run in which ThreadPoolDestory hangs: it ends in a
-- state in which the user waits in ThreadPoolDestory and no step is possible any more.
pub hang_lem :
    (num : ℕ)
    → (s : System) × Reach (suc (suc num)) s × (s.client ≡ destroying) × ((t : System) → ¬ Step s t)
unfolding shut_down
hang_lem num =
    let (s, r, h) = leave_all (suc (suc num)) num [] tt (next here (destroy refl refl)) in
    (s, r, h.client, λ t. hung_no_step h)
