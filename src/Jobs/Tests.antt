-- ===== src/Jobs/Tests.antt =====
-- The queue at concrete jobs.
use c_study.Base.{ℕ, ◌≡◌, refl, [], ◌∷◌, none, some, arith, ◌==◌, if◌then◌else◌}
use c_study.Jobs.Semaphore.{create as sem_create, post, reset}
use c_study.Jobs.Queue.{
  Job, Memory, create, push, pull, clear, set_next, set_last_next, enqueue, posted, dequeue,
  free_job, clear_loop,
}
use c_study.Jobs.Drain.{push_all, pull_all, somes, fifo}

program : Unit {0}
unfolding sem_create post reset create push pull clear set_next set_last_next enqueue posted dequeue
    free_job clear_loop push_all pull_all
program = tt

abbrev job : ℕ → Job
job n = record { next = none; func = 7; arg = n }

-- Two allocated jobs, at 10 and 11, and an empty queue.
abbrev start : Memory
start = record {
  jobs = λ p. if p == 10 then some (job 1) else (if p == 11 then some (job 2) else none);
  queue = create;
}

fifo_example :
    (m' : Memory) × (push_all (10 ∷ 11 ∷ []) start ≡ some m')
    × (pull_all 2 m' ≡ some (somes (10 ∷ 11 ∷ [])))
fifo_example =
    fifo start (10 ∷ 11 ∷ []) refl ((job 1, refl), ((job 2, refl), tt)) (omega arith) (omega arith)
