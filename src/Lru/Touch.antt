-- ===== src/Lru/Touch.antt =====
-- A write through a pointer to an item that a search found, and a tick of the clock: what LRUCacheSet
-- does for a key that is there, and LRUCacheGet for a hit.
use c_study.Base.{ℕ, ◌+◌, ◌%◌, ◌^◌, ◌<◌, ◌≡◌, some, arith, if◌then◌else◌}
use c_study.Lru.Hash.{Bytes}
use c_study.Lru.Cache.{LruCacheItem, LruCache, set_chain, store, int_max}
use c_study.Lru.Keys.{bytes_eq, eq_of_bytes_eq}
use c_study.Lru.Find.{find_key-store, find_key-key}
use c_study.Lru.Chains.{IsChain, IsChain-store, IsChain-later, length-store}
use c_study.Lru.Invariant.{bucket, find, total, total_items-set_chain, IsValid, set_chain_all}

-- The cache after a write of `f` through `p`, an item of chain `index`.
unfoldable pub touch : LruCache → ℕ → ℕ → (LruCacheItem → LruCacheItem) → LruCache
touch c index p f = record c {
  items = set_chain c.items index (store p f (c.items index));
  age = (c.age + 1) % 2 ^ 64;
}

module _ (f : LruCacheItem → LruCacheItem) (f-addr : (i : LruCacheItem) → (f i).addr ≡ i.addr)
    (f-key : (i : LruCacheItem) → (f i).key ≡ i.key) (c : LruCache) (v : IsValid c)
    (early : c.age < int_max) where
  pub touch-IsValid :
      (index p : ℕ)
      → index < c.hash_table_size
      → ((i : LruCacheItem) → (f i).age < c.age + 1)
      → IsValid (touch c index p f)
  unfolding touch
  touch-IsValid index p inside stamp =
      let tick : (c.age + 1) % 2 ^ 64 ≡ c.age + 1 = omega arith in
      rw tick (record {
        sized = v.sized;
        chains =
            set_chain_all (IsChain c.seed c.hash_table_size (c.age + 1) c.brk) c.items index _
              (IsChain-store f p f-addr f-key _ _ _ _ _ _ stamp (v.chains index))
              (λ i.
                IsChain-later _ _ _ _ _ _ (v.chains i) (c.age + 1) c.brk (omega arith)
                  (omega arith));
        counted = omega (
          arith,
          v.counted,
          total_items-set_chain c.items index (store p f (c.items index)) c.hash_table_size,
          length-store f p f-addr f-key (c.items index),
        );
        clocked = omega (arith, v.clocked);
      })

  pub touch-total : (index p : ℕ) → index < c.hash_table_size → total (touch c index p f) ≡ total c
  unfolding touch
  touch-total index p inside = omega (
    arith,
    total_items-set_chain c.items index (store p f (c.items index)) c.hash_table_size,
    length-store f p f-addr f-key (c.items index),
  )

  pub find-touch :
      (item : LruCacheItem) (key q : Bytes)
      → find c key ≡ some item
      → find (touch c (bucket c key) item.addr f) q
        ≡ (if bytes_eq q key then some (f item) else find c q)
  unfolding find touch
  find-touch item key q h = ground (
    arith,
    find_key-key (c.items (bucket c key)) key item h,
    eq_of_bytes_eq q key,
    find_key-store f f-key (c.items (bucket c key)) item q key (v.chains (bucket c key)).linked h,
  )
