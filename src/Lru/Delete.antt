-- ===== src/Lru/Delete.antt =====
-- LRUCacheDelete on a valid cache. It takes the item off its chain and leaves `current_entries` alone.
use c_study.Base.{
  ℕ, ◌+◌, ◌≡◌, refl, Option, none, some, arith, if◌then◌else◌, inl, inr, Option-cases,
}
use c_study.Lru.Hash.{Bytes}
use c_study.Lru.Cache.{
  LruCacheItem, LruCache, LruCacheError, lru_cache_ok, lru_cache_key_missing, delete,
}
use c_study.Lru.Keys.{bytes_eq, eq_of_bytes_eq}
use c_study.Lru.Links.{At}
use c_study.Lru.Find.{find_key-key}
use c_study.Lru.Invariant.{
  bucket, find, total, IsValid, without, without-chains, without-total, find-without,
}
use c_study.Lru.Victim.{remove_item-without}
use c_study.Lru.Walks.{delete_hit, delete_miss}

abbrev pub status : Option LruCacheItem → LruCacheError
status (some _) = lru_cache_ok
status none = lru_cache_key_missing

abbrev pub count : Option LruCacheItem → ℕ
count (some _) = 1
count none = 0

without-IsValid :
    (c : LruCache) (item : LruCacheItem) (index : ℕ) (prev : Option ℕ)
    → IsValid c
    → At item none prev (c.items index)
    → IsValid (without c index item.addr)
unfolding without
without-IsValid c item index prev v at = record {
  sized = v.sized;
  chains = without-chains c v index item none prev at;
  counted = omega (arith, v.counted, without-total c v index item none prev at);
  clocked = v.clocked;
}

without-current_entries :
    (c : LruCache) (index a : ℕ) → (without c index a).current_entries ≡ c.current_entries
unfolding without
without-current_entries c index a = refl

find-key :
    (c : LruCache) (key : Bytes) (item : LruCacheItem) → find c key ≡ some item → item.key ≡ key
unfolding find
find-key c key item h = find_key-key (c.items (bucket c key)) key item h

-- On a valid cache, LRUCacheDelete answers LRU_CACHE_OK exactly for a key that is there; afterwards
-- the key is not found, every other key finds what it found, and the cache is valid with one item
-- less. `current_entries` keeps its value all the same.
pub delete_lem :
    (c : LruCache) (key : Bytes)
    → IsValid c
    → (c' : LruCache) × (delete c key ≡ some (c', status (find c key)))
      × IsValid c'
      × (total c' + count (find c key) ≡ total c)
      × (c'.current_entries ≡ c.current_entries)
      × ((q : Bytes) → find c' q ≡ (if bytes_eq q key then none else find c q))
delete_lem c key v = elim (Option-cases (find c key)) [
  | inl h ↦ (
    c,
    rw h (delete_miss c key v h),
    v,
    rw h (omega arith),
    refl,
    λ q. ground (arith, eq_of_bytes_eq q key),
  )
  | inr (item, h) ↦
      let (prev, at, e) = delete_hit c key v item h in
      (
        without c (bucket c key) item.addr,
        rw (h, e, remove_item-without c prev item (bucket c key) v at),
        without-IsValid c item (bucket c key) prev v at,
        rw h (without-total c v (bucket c key) item none prev at),
        without-current_entries c (bucket c key) item.addr,
        λ q. rw (find-key c key item h) at (find-without c v (bucket c key) item none prev at q),
      )
]
