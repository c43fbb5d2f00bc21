-- ===== src/Jobs/Segment.antt =====
-- Lists of jobs in the store: the addresses that are reached from a pointer by `next`.
use c_study.Base.{
  ℕ, ◌<◌, ◌≡◌, refl, ◌≢◌, List, [], ◌∷◌, ◌++◌, Option, none, some, true, arith, length,
}
use c_study.Jobs.Queue.{Job, Store, Memory, update}

abbrev pub Segment : Store → Option ℕ → List ℕ → Type 0
Segment jobs h [] = h ≡ none
Segment jobs h (p ∷ ps) =
    (job : Job) × (h ≡ some p) × (jobs p ≡ some job) × Segment jobs job.next ps

abbrev pub Misses : ℕ → List ℕ → Type 0
Misses a [] = Unit
Misses a (p ∷ ps) = (p ≢ a) × Misses a ps

abbrev pub IsDistinct : List ℕ → Type 0
IsDistinct [] = Unit
IsDistinct (p ∷ ps) = Misses p ps × IsDistinct ps

unfoldable pub last_from : ℕ → List ℕ → ℕ
last_from p [] = p
last_from p (q ∷ ps) = last_from q ps

unfoldable pub last_of : List ℕ → Option ℕ
last_of [] = none
last_of (p ∷ ps) = some (last_from p ps)

pub last_of-append : (ps : List ℕ) (p : ℕ) → last_of (ps ++ p ∷ []) ≡ some p
unfolding last_of last_from
last_of-append [] p = refl
last_of-append (q ∷ []) p = refl
last_of-append (q ∷ r ∷ ps) p = last_of-append (r ∷ ps) p

pub Segment-update :
    (jobs : Store) (h : Option ℕ) (ps : List ℕ) (a : ℕ) (v : Option Job)
    → Misses a ps
    → Segment jobs h ps
    → Segment (update jobs a v) h ps
Segment-update jobs h [] a v d s = s
Segment-update jobs h (p ∷ ps) a v d s =
    (s.0, s.1, ground arith, Segment-update jobs (s.0).next ps a v d.1 s.3)

last_from-ne : (ps : List ℕ) (p a : ℕ) → Misses a (p ∷ ps) → last_from p ps ≢ a
unfolding last_from
last_from-ne [] p a d = d.0
last_from-ne (q ∷ ps) p a d = last_from-ne ps q a d.1

-- Linking a last job behind the list.
pub Segment-append :
    (jobs : Store) (h : Option ℕ) (q : ℕ) (ps : List ℕ) (p : ℕ) (new : Job)
    → IsDistinct (q ∷ ps)
    → Misses p (q ∷ ps)
    → jobs p ≡ some new
    → new.next ≡ none
    → Segment jobs h (q ∷ ps)
    → (job : Job) × (jobs (last_from q ps) ≡ some job)
      × Segment
          (update jobs (last_from q ps) (some (record job { next = some p })))
          h
          (q ∷ (ps ++ p ∷ []))
unfolding last_from
Segment-append jobs h q [] p new d e here end s = (
  s.0,
  s.2,
  (record (s.0) { next = some p }, s.1, ground arith, (new, refl, ground (arith, e.0), end)),
)
Segment-append jobs h q (r ∷ ps) p new d e here end s =
    let (job, found, t) = Segment-append jobs (s.0).next r ps p new d.1 e.1 here end s.3 in
    (job, found, (s.0, s.1, ground (arith, last_from-ne ps r q d.0), t))

-- The queue holds the jobs at these addresses, first to last.
pub record Represents (m : Memory) (ps : List ℕ) : Type 0 where
  pub segment : Segment m.jobs m.queue.front ps
  pub last : m.queue.last ≡ last_of ps
  pub counted : m.queue.length ≡ length ps
  pub distinct : IsDistinct ps
  pub ready : 0 < length ps → m.queue.has_job.value ≡ true
