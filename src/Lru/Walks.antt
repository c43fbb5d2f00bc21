-- ===== src/Lru/Walks.antt =====
-- The walk with which LRUCacheSet, LRUCacheGet and LRUCacheDelete begin, on a valid cache, and what
-- each of them does on the two results of that walk.
use c_study.Base.{ℕ, ◌≡◌, ap, ◌∙◌, Option, none, some}
use c_study.Lru.Hash.{Bytes, hash_index, hash_index_total}
use c_study.Lru.Cache.{
  LruCacheItem, LruCache, lru_cache_ok, lru_cache_key_missing, Chain, walk, set, set_new, set_found,
  get, get_step, delete, remove_item,
}
use c_study.Lru.Keys.{walk-find_key}
use c_study.Lru.Links.{At, walk_hit, walk_miss, last_addr}
use c_study.Lru.Invariant.{bucket, find, IsValid}

module _ (c : LruCache) (key : Bytes) (v : IsValid c) where
  abbrev chain : Chain
  chain = c.items (bucket c key)

  walk_found :
      (item : LruCacheItem)
      → find c key ≡ some item
      → (prev : Option ℕ) × (walk chain key none ≡ (prev, some item)) × At item none prev chain
  unfolding find
  walk_found item h =
      let prev = (walk chain key none).0 in
      let e : walk chain key none ≡ (prev, some item) =
        ap {B = Option ℕ × Option LruCacheItem} (λ o. (prev, o))
          (walk-find_key chain key none ∙ h) in
      (prev, e, walk_hit chain key none prev item e)

  walk_absent : find c key ≡ none → walk chain key none ≡ (last_addr none chain, none)
  unfolding find
  walk_absent h =
      let prev = (walk chain key none).0 in
      let e : walk chain key none ≡ (prev, none) =
        ap {B = Option ℕ × Option LruCacheItem} (λ o. (prev, o))
          (walk-find_key chain key none ∙ h) in
      rw e (rw (walk_miss chain key none prev e))

  indexed : hash_index c.seed c.hash_table_size key ≡ some (bucket c key)
  indexed = hash_index_total c.seed c.hash_table_size key v.sized

  pub set_hit :
      (item : LruCacheItem) (value : Bytes) (n : ℕ)
      → find c key ≡ some item
      → set c key value n ≡ some (set_found c (bucket c key) item value n)
  unfolding set
  set_hit item value n h = let (prev, w, _) = walk_found item h in rw (indexed, set, w)

  pub set_miss :
      (value : Bytes) (n : ℕ)
      → find c key ≡ none
      → set c key value n ≡ some (set_new c (bucket c key) (last_addr none chain) key value n)
  unfolding set
  set_miss value n h = rw (indexed, set, walk_absent h)

  pub get_hit :
      (item : LruCacheItem)
      → find c key ≡ some item
      → get c key ≡ some (get_step c (bucket c key) (some item))
  unfolding get
  get_hit item h = let (prev, w, _) = walk_found item h in rw (indexed, get, w)

  pub get_miss :
      find c key ≡ none
      → get c key ≡ some (c, record { ret = lru_cache_key_missing; value = none; value_length = 0 })
  unfolding get
  get_miss h = rw (indexed, get, walk_absent h)

  pub delete_hit :
      (item : LruCacheItem)
      → find c key ≡ some item
      → (prev : Option ℕ) × At item none prev chain
        × (delete c key ≡ some (remove_item c prev item (bucket c key), lru_cache_ok))
  unfolding delete
  delete_hit item h = let (prev, w, at) = walk_found item h in (prev, at, rw (indexed, delete, w))

  pub delete_miss : find c key ≡ none → delete c key ≡ some (c, lru_cache_key_missing)
  unfolding delete
  delete_miss h = rw (indexed, delete, walk_absent h)
