-- ===== src/Lru/Run.antt =====
-- Sequences of calls of the API of lru_cache.h.
use native.Mathlib.Decide.{dec_lt, ℕ_discrete}
use c_study.Base.{
  ℕ, ◌+◌, ◌≤◌, ◌<◌, ◌≡◌, refl, ap, ◌∙◌, ◌⊎◌, List, [], ◌∷◌, Option, none, some, arith, inl, inr,
  length, Option-cases,
}
use c_study.Lru.Hash.{Bytes, hash_index}
use c_study.Lru.Cache.{
  LruCacheItem, LruCache, int_max, set, get, delete, walk, set_step, set_new, set_found, make_room,
  remove_least_used_item, remove_item, Got, LruCacheError,
}
use c_study.Lru.Invariant.{find, total, IsValid}
use c_study.Lru.Update.{set_replaces, get_lem, answer}
use c_study.Lru.Room.{set_inserts}
use c_study.Lru.Full.{set_evicts}
use c_study.Lru.Delete.{delete_lem, status}

pub data Call : Type 0 where
  set_call : Bytes → Bytes → ℕ → Call
  get_call : Bytes → Call
  delete_call : Bytes → Call

state_of {ℓ} : {A : Type ℓ} → Option (LruCache × A) → Option LruCache
state_of none = none
state_of (some r) = some r.0

unfoldable pub call : LruCache → Call → Option LruCache
unfolding state_of
call c (set_call key value n) = set c key value n
call c (get_call key) = state_of (get c key)
call c (delete_call key) = state_of (delete c key)

unfoldable pub run : List Call → LruCache → Option LruCache
run [] c = some c
run (a ∷ calls) c = elim (call c a) [ none ↦ none | some c' ↦ run calls c' ]

-- What no call changes, and how far it moves the clock.
record Frame (c c' : LruCache) : Type 0 where
  capacity : c'.capacity ≡ c.capacity
  clock : c'.age ≤ c.age + 1
  next : c'.stale_next ≡ c.stale_next

remove_least_used_item-Frame :
    (c : LruCache)
    → ((remove_least_used_item c).capacity ≡ c.capacity)
      × ((remove_least_used_item c).age ≡ c.age)
      × ((remove_least_used_item c).stale_next ≡ c.stale_next)
unfolding remove_least_used_item remove_item
remove_least_used_item-Frame c = ground arith

set_new-Frame :
    (c : LruCache) (index : ℕ) (prev : Option ℕ) (key value : Bytes) (n : ℕ)
    → Frame c (set_new c index prev key value n)
unfolding set_new make_room
set_new-Frame c index prev key value n = ground (arith, remove_least_used_item-Frame c)

set_step-Frame :
    (c : LruCache) (index : ℕ) (w : Option ℕ × Option LruCacheItem) (key value : Bytes) (n : ℕ)
    → Frame c (set_step c index w key value n)
unfolding set_step set_found
set_step-Frame c index (prev, none) key value n = set_new-Frame c index prev key value n
set_step-Frame c index (prev, some item) key value n = ground arith

set-Frame : (c c' : LruCache) (key value : Bytes) (n : ℕ) → set c key value n ≡ some c' → Frame c c'
unfolding set
set-Frame c c' key value n h = elim (Option-cases (hash_index c.seed c.hash_table_size key)) [
  | inl e ↦ ground arith
  | inr (index, e) ↦
      ground (arith, set_step-Frame c index (walk (c.items index) key none) key value n)
]

get-Frame : (c c' : LruCache) (key : Bytes) (got : Got) → get c key ≡ some (c', got) → Frame c c'
unfolding get
get-Frame c c' key got h = ground arith

delete-Frame :
    (c c' : LruCache) (key : Bytes) (e : LruCacheError) → delete c key ≡ some (c', e) → Frame c c'
unfolding delete remove_item
delete-Frame c c' key e h = ground arith

-- What a call does to a valid cache that holds no more items than its capacity.
record Served (c c' : LruCache) : Type 0 where
  valid : IsValid c'
  within : total c' ≤ c'.capacity
  frame : Frame c c'
  leaks : total c' + c.current_entries ≤ total c + c'.current_entries

module _ (c : LruCache) (v : IsValid c) (early : c.age < int_max) (positive : 0 < c.capacity)
    (within : total c ≤ c.capacity) (null_next : c.stale_next c.brk ≡ []) where
  abbrev Serves : Option LruCache → Type 0
  Serves r = (c' : LruCache) × (r ≡ some c') × Served c c'

  insert-Served :
      (key value : Bytes) (n : ℕ)
      → find c key ≡ none
      → (c.current_entries < c.capacity) ⊎ (total c ≡ 0)
      → Serves (set c key value n)
  insert-Served key value n absent room =
      let (c', e, valid, items, entries, _) =
        set_inserts c v early key value n null_next absent room in
      let frame = set-Frame c c' key value n e in
      (
        c',
        e,
        record {
          valid = valid;
          within = omega (arith, v.counted);
          frame = frame;
          leaks = omega arith;
        },
      )

  evict-Served :
      (key value : Bytes) (n : ℕ)
      → find c key ≡ none
      → c.capacity ≤ c.current_entries
      → 0 < total c
      → Serves (set c key value n)
  evict-Served key value n absent full some_item =
      let (item, c', _, _, e, valid, entries, cases) =
        set_evicts c v early key value n null_next absent full some_item in
      let frame = set-Frame c c' key value n e in
      let fewer : total c' ≤ total c = elim cases [
        | inl k ↦ omega (arith, k.1)
        | inr k ↦ omega (arith, k.1)
      ] in
      (c', e, record { valid = valid; within = omega arith; frame = frame; leaks = omega arith })

  set-Served : (key value : Bytes) (n : ℕ) → Serves (set c key value n)
  set-Served key value n = elim (Option-cases (find c key)) [
    | inl absent ↦ elim (dec_lt c.current_entries c.capacity) [
      | yes free ↦ insert-Served key value n absent (inl free)
      | no full ↦ elim (ℕ_discrete (total c) 0) [
        | yes empty ↦ insert-Served key value n absent (inr empty)
        | no some_item ↦ evict-Served key value n absent (omega arith) (omega arith)
      ]
    ]
    | inr (item, here) ↦
        let (c', e, valid, items, entries, _) = set_replaces c key v early item value n here in
        let frame = set-Frame c c' key value n e in
        (c', e, record { valid = valid; within = omega arith; frame = frame; leaks = omega arith })
  ]

  call-Served : (a : Call) → Serves (call c a)
  unfolding call
  call-Served (set_call key value n) = set-Served key value n
  call-Served (get_call key) =
      let (c', e, valid, items, entries, _) = get_lem c key v early in
      let frame = get-Frame c c' key (answer (find c key)) e in
      (
        c',
        ap state_of e,
        record { valid = valid; within = omega arith; frame = frame; leaks = omega arith },
      )
  call-Served (delete_call key) =
      let (c', e, valid, items, entries, _) = delete_lem c key v in
      let frame = delete-Frame c c' key (status (find c key)) e in
      (
        c',
        ap state_of e,
        record { valid = valid; within = omega arith; frame = frame; leaks = omega arith },
      )

-- Where the memory that `malloc` returns for items happens to hold NULL for `next`, from a valid cache of a
-- positive capacity that holds no more items than its capacity, every
-- sequence of calls after which the clock is still at most INT_MAX runs without a trap, and ends in a
-- valid cache with the same capacity and no more items than that. The excess of `current_entries`
-- over the number of items is at least what it was: nothing ever brings it down.
pub run_lem :
    (calls : List Call) (c : LruCache)
    → IsValid c
    → 0 < c.capacity
    → total c ≤ c.capacity
    → c.age + length calls ≤ int_max
    → ((a : ℕ) → c.stale_next a ≡ [])
    → (c' : LruCache) × (run calls c ≡ some c')
      × IsValid c'
      × (c'.capacity ≡ c.capacity)
      × (total c' ≤ c'.capacity)
      × (total c' + c.current_entries ≤ total c + c'.current_entries)
unfolding run
run_lem [] c v positive within early null_next = (c, refl, v, refl, within, omega arith)
run_lem (a ∷ calls) c v positive within early null_next =
    let (d, e, s) = call-Served c v (omega arith) positive within (null_next c.brk) a in
    let (c', f, valid, same, fits, leak) =
      run_lem calls d s.valid (omega (arith, s.frame.capacity)) s.within
        (omega (arith, s.frame.clock)) (λ p. ap (λ f. f p) s.frame.next ∙ null_next p) in
    (c', rw (e, run) f, valid, same ∙ s.frame.capacity, fits, omega (arith, s.leaks))
