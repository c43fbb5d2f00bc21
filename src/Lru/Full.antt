-- ===== src/Lru/Full.antt =====
-- LRUCacheSet on a new key of a full cache, end to end.
use mathlib.Core.Path.{subst}
use native.Mathlib.Decide.{ℕ_discrete}
use c_study.Base.{
  ℕ, ◌+◌, ◌≤◌, ◌<◌, ◌≡◌, sym, ap, ◌∙◌, ◌⊎◌, [], ◌∷◌, ◌++◌, Option, none, some, arith, All,
  if◌then◌else◌, inl, inr, length-append, Option-cases,
}
use c_study.Lru.Hash.{Bytes}
use c_study.Lru.Cache.{LruCacheItem, LruCache, int_max, set, new_item}
use c_study.Lru.Keys.{bytes_eq}
use c_study.Lru.Links.{last_addr}
use c_study.Lru.Invariant.{bucket, find, total, total_items_nil, IsValid, find-At}
use c_study.Lru.Victim.{
  IsVictim, evicted, evicted-IsValid, evicted-total, evicted-current_entries, find-evicted,
  remove_least_used_item-Removal,
}
use c_study.Lru.Insert.{
  placed, extended, placed-total, extended-IsValid, find-extended, lost-IsValid, find-lost,
}
use c_study.Lru.Room.{fresh_item, IsTail, placed-current_entries, make_room_full}
use c_study.Lru.Replace.{
  written, written_kept, written_lost, set_placed, after_absent, same_bucket, evicted-bucket,
  evicted-fresh_item,
}

IsTail-dec : (c : LruCache) (key : Bytes) (item : LruCacheItem) → Dec (IsTail c key item)
IsTail-dec c key item = elim (ℕ_discrete (bucket c item.key) (bucket c key)) [
  | yes e ↦ elim (Option-cases (last_addr none (c.items (bucket c key)))) [
    | inl q ↦ no (λ t. ground (arith, t.1))
    | inr (p, q) ↦ elim (ℕ_discrete p item.addr) [
      | yes r ↦ yes (e, q ∙ ap some r)
      | no r ↦ no (λ t. ground (arith, t.1))
    ]
  ]
  | no e ↦ no (λ t. e t.0)
]

-- The new key is there, and the victim is gone.
abbrev pub Kept : LruCache → Bytes → Bytes → ℕ → LruCacheItem → LruCache → Type 0
Kept c key value n item c' =
    (¬ IsTail c key item)
    × (total c' ≡ total c)
    × ((q : Bytes)
        → find c' q ≡ (
            if bytes_eq q key
            then some (fresh_item c key value n)
            else (if bytes_eq q item.key then none else find c q)))

-- The victim is gone, and the new key is not there.
abbrev pub Lost : LruCache → Bytes → LruCacheItem → LruCache → Type 0
Lost c key item c' =
    IsTail c key item
    × (total c' + 1 ≡ total c)
    × ((q : Bytes) → find c' q ≡ (if bytes_eq q item.key then none else find c q))

module _ (c : LruCache) (v : IsValid c) (early : c.age < int_max) (key value : Bytes) (n : ℕ)
    (null_next : c.stale_next c.brk ≡ []) (absent : find c key ≡ none)
    (full : c.capacity ≤ c.current_entries) where
  module _ (item : LruCacheItem) (index : ℕ) (prev : Option ℕ)
      (w : IsVictim c item index prev) where
    abbrev there : LruCache
    there = evicted c item index

    there-IsValid : IsValid there
    there-IsValid = evicted-IsValid c item index prev v w

    there_early : there.age < int_max
    there_early = omega (arith, (evicted-bucket c item index key).1)

    abbrev result : LruCache
    result = placed there (bucket there key) (written c v key value n item index prev w)

    result_kept :
        ¬ IsTail c key item → result ≡ placed there (bucket there key) (extended there key value n)
    result_kept t = ap (placed there (bucket there key)) (
        written_kept c v key value n item index prev w t
        ∙ ap (λ b. there.items b ++ new_item there key value n ∷ [])
            (sym (same_bucket c v key value n item index prev w)))

    result_lost :
        IsTail c key item
        → result ≡ placed there (bucket there key) (there.items (bucket there key))
    result_lost t = ap (placed there (bucket there key)) (
        written_lost c v key value n item index prev w t
        ∙ ap there.items (sym (same_bucket c v key value n item index prev w)))

    kept_total : total (placed there (bucket there key) (extended there key value n)) ≡ total c
    kept_total = omega (
      arith,
      placed-total there there-IsValid there_early key value n (extended there key value n),
      length-append (there.items (bucket there key)) (new_item there key value n ∷ []),
      evicted-total c item index prev v w,
    )

    lost_total :
        total (placed there (bucket there key) (there.items (bucket there key))) + 1 ≡ total c
    lost_total = omega (
      arith,
      placed-total there there-IsValid there_early key value n (there.items (bucket there key)),
      evicted-total c item index prev v w,
    )

    find_kept :
        (q : Bytes)
        → find (placed there (bucket there key) (extended there key value n)) q ≡ (
            if bytes_eq q key
            then some (fresh_item c key value n)
            else (if bytes_eq q item.key then none else find c q))
    find_kept q =
        find-extended there there-IsValid there_early key value n q
          (after_absent c v key value n item index prev w absent)
        ∙ rw (evicted-fresh_item c item index key value n, find-evicted c item index prev q v w)

    result_cases :
        Dec (IsTail c key item)
        → IsValid result × (Kept c key value n item result ⊎ Lost c key item result)
    result_cases (yes t) =
        subst (λ d. IsValid d × (Kept c key value n item d ⊎ Lost c key item d))
          (sym (result_lost t))
          (
            lost-IsValid there there-IsValid there_early key value n,
            inr (
              t,
              lost_total,
              λ q.
                  find-lost there there-IsValid there_early key value n q
                  ∙ find-evicted c item index prev q v w,
            ),
          )
    result_cases (no t) =
        subst (λ d. IsValid d × (Kept c key value n item d ⊎ Lost c key item d))
          (sym (result_kept t))
          (
            extended-IsValid there there-IsValid there_early key value n
                (after_absent c v key value n item index prev w absent),
            inl (t, kept_total, find_kept),
          )

    result-current_entries : result.current_entries ≡ c.current_entries
    result-current_entries =
        placed-current_entries there there-IsValid there_early key value n (bucket there key)
          (written c v key value n item index prev w)
        ∙ evicted-current_entries c item index prev v w

  -- On a valid cache whose clock is below INT_MAX, where the memory that `malloc` returns for the item happens
  -- to hold NULL for `next`, LRUCacheSet for a new key, where
  -- `current_entries` has reached the capacity and some item is left, succeeds and keeps the cache
  -- valid and `current_entries` as it is. It takes out one item that no other is older than. If that
  -- item was not the last one of the new key's chain, the key then finds its new item, the key of
  -- the item taken out finds nothing, every other key finds what it found, and the number of items
  -- stays. If it was the last one, the new item is lost: every key finds what it found, except that
  -- of the item taken out, and there is one item less.
  pub set_evicts :
      0 < total c
      → (item : LruCacheItem) × (c' : LruCache) × (find c item.key ≡ some item)
        × ((i : ℕ) → i < c.hash_table_size → All (λ y. item.age ≤ y.age) (c.items i))
        × (set c key value n ≡ some c')
        × IsValid c'
        × (c'.current_entries ≡ c.current_entries)
        × (Kept c key value n item c' ⊎ Lost c key item c')
  set_evicts some_item = elim (remove_least_used_item-Removal c v (omega arith)) [
    | inl (nothing, _) ↦ absurd (omega (arith, total_items_nil c.items c.hash_table_size nothing))
    | inr (item, index, prev, w, e) ↦
        let (valid, cases) = result_cases item index prev w (IsTail-dec c key item) in
        (
          item,
          result item index prev w,
          find-At c v index item none prev w.at,
          w.oldest,
          set_placed c v key value n item index prev w null_next absent full
              (make_room_full c full ∙ e),
          valid,
          result-current_entries item index prev w,
          cases,
        )
  ]
