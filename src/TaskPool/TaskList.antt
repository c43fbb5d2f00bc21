-- ===== src/TaskPool/TaskList.antt =====
-- thread_pool01/thread_pool.c, GetWorkerTask and the list of ThreadPoolAddTask, on a store of tasks.
-- `struct WorkerTask` has the fields of `struct Job` of thread_pool02. `none` is a read or a write
-- through NULL or through an address that holds no task.
use c_study.Base.{
  ℕ, zero, suc, ◌≤◌, ◌<◌, ◌≡◌, refl, ◌∙◌, ap, List, [], ◌∷◌, ◌++◌, Option, none, some, arith,
  length, ◌>>=◌,
}
use c_study.Jobs.Queue.{Job, Store, update, set_next, set_last_next}
use c_study.Jobs.Refine.{IsDistinct-append}
use c_study.Jobs.Segment.{Segment, Misses, IsDistinct, last_from, Segment-update, Segment-append}

-- The tasks, and the field `task_list` of the pool.
pub record Tasks : Type 0 where
  pub store : Store
  pub task_list : Option ℕ

unfoldable pub get_worker_task : Tasks → Option (Option ℕ × Tasks)
get_worker_task tp = elim tp.task_list [
  | none ↦ some (none, tp)
  | some p ↦ elim (tp.store p) [
    | none ↦ none
    | some task ↦ some (some p, record tp { task_list = task.next })
  ]
]

-- The loop `while (p != NULL)` of ThreadPoolAddTask on fuel: what it leaves in `prev`.
unfoldable pub find_last : ℕ → Store → Option ℕ → Option ℕ → Option (Option ℕ)
find_last fuel store prev none = some prev
find_last zero store prev (some p) = none
find_last (suc fuel) store prev (some p) = do
  task ← store p
  find_last fuel store (some p) task.next

-- ThreadPoolAddTask, where `malloc` gives the address `p`.
unfoldable pub add_task : ℕ → Tasks → ℕ → ℕ → ℕ → Option Tasks
unfolding find_last set_last_next
add_task fuel tp p func arg =
    let store = update tp.store p (some (record { next = none; func = func; arg = arg })) in
    elim tp.task_list [
      | none ↦ some (record { store = store; task_list = some p })
      | some q ↦ do
        prev ← find_last fuel store none (some q)
        store' ← set_last_next store prev p
        some (record { store = store'; task_list = some q })
    ]

find_last-none :
    (fuel : ℕ) (store : Store) (prev : Option ℕ) → find_last fuel store prev none ≡ some prev
unfolding find_last
find_last-none zero store prev = refl
find_last-none (suc fuel) store prev = refl

-- One round of the loop.
find_last-suc :
    (fuel : ℕ) (store : Store) (prev h : Option ℕ) (q : ℕ) (task : Job)
    → h ≡ some q
    → store q ≡ some task
    → find_last (suc fuel) store prev h ≡ find_last fuel store (some q) task.next
unfolding find_last
find_last-suc fuel store prev h q task e found = rw (e, find_last) (rw (found, find_last) refl)

find_last-Segment :
    (fuel : ℕ) (store : Store) (prev h : Option ℕ) (q : ℕ) (ps : List ℕ)
    → Segment store h (q ∷ ps)
    → length ps < fuel
    → find_last fuel store prev h ≡ some (some (last_from q ps))
unfolding last_from
find_last-Segment zero store prev h q ps s f = absurd (omega arith)
find_last-Segment (suc fuel) store prev h q [] (task, e, found, end) f =
    find_last-suc fuel store prev h q task e found
    ∙ ap (find_last fuel store (some q)) end
    ∙ find_last-none fuel store (some q)
find_last-Segment (suc fuel) store prev h q (r ∷ ps) (task, e, found, s) f =
    find_last-suc fuel store prev h q task e found
    ∙ find_last-Segment fuel store (some q) task.next r ps s (omega arith)

-- The list holds the tasks at these addresses, first to last.
pub record Holds (tp : Tasks) (ps : List ℕ) : Type 0 where
  pub segment : Segment tp.store tp.task_list ps
  pub distinct : IsDistinct ps

IsDistinct-tail : (p : ℕ) (ps : List ℕ) → IsDistinct (p ∷ ps) → IsDistinct ps
IsDistinct-tail p ps d = d.1

-- What GetWorkerTask returns and leaves.
abbrev pub Taken : List ℕ → Option (Option ℕ × Tasks) → Type 0
Taken [] r = (tp : Tasks) × (r ≡ some (none, tp)) × Holds tp []
Taken (p ∷ ps) r = (tp : Tasks) × (r ≡ some (some p, tp)) × Holds tp ps

-- On a list of tasks GetWorkerTask takes the first one and leaves the others in their order, and on an
-- empty list it returns NULL and leaves it empty.
get_worker_task-Taken : (tp : Tasks) (ps : List ℕ) → Holds tp ps → Taken ps (get_worker_task tp)
unfolding get_worker_task
get_worker_task-Taken tp [] h = (tp, ground (arith, h.segment), h)
get_worker_task-Taken tp (p ∷ ps) h =
    let (task, e, found, rest) = h.segment in
    (
      record tp { task_list = task.next },
      rw (e, get_worker_task) (rw (found, get_worker_task) refl),
      record { segment = rest; distinct = IsDistinct-tail p ps h.distinct },
    )

module _ (tp : Tasks) (p func arg : ℕ) where
  abbrev task : Job
  task = record { next = none; func = func; arg = arg }

  abbrev stored : Store
  stored = update tp.store p (some task)

  add_task-none :
      (fuel : ℕ)
      → tp.task_list ≡ none
      → add_task fuel tp p func arg ≡ some (record { store = stored; task_list = some p })
  unfolding add_task
  add_task-none fuel e = rw (e, add_task) refl

  add_task-some :
      (fuel q l : ℕ) (last : Job)
      → tp.task_list ≡ some q
      → find_last fuel stored none (some q) ≡ some (some l)
      → stored l ≡ some last
      → add_task fuel tp p func arg
        ≡ some (record {
          store = update stored l (some (record last { next = some p }));
          task_list = some q;
        })
  unfolding add_task set_last_next set_next
  add_task-some fuel q l last e walked found = rw (e, add_task) (rw walked (ground arith))

  -- ThreadPoolAddTask, with as much fuel as there are tasks or more, puts the new task behind them all. The
  -- addresses of the tasks in the list are distinct, and `malloc` gives one that none of them has.
  add_task_lem :
      (fuel : ℕ) (ps : List ℕ)
      → Holds tp ps
      → Misses p ps
      → length ps ≤ fuel
      → (tp' : Tasks) × (add_task fuel tp p func arg ≡ some tp') × Holds tp' (ps ++ p ∷ [])
  add_task_lem fuel [] h d f = (
    _,
    add_task-none fuel h.segment,
    record { segment = (task, refl, ground arith, refl); distinct = (tt, tt) },
  )
  add_task_lem fuel (q ∷ ps) h d f =
      let (first, e, here, rest) = h.segment in
      let walk : Segment stored (some q) (q ∷ ps) =
        (first, refl, ground arith, Segment-update tp.store first.next ps p (some task) d.1 rest) in
      let (last, found, s) =
        Segment-append stored (some q) q ps p task h.distinct d (ground arith) refl walk in
      (
        _,
        add_task-some fuel q (last_from q ps) last e
            (find_last-Segment fuel stored none (some q) q ps walk (omega arith)) found,
        record { segment = s; distinct = IsDistinct-append (q ∷ ps) p h.distinct d },
      )
