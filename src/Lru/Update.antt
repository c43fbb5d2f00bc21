-- ===== src/Lru/Update.antt =====
-- LRUCacheSet on a key that is there, and LRUCacheGet.
use mathlib.Core.Option
use c_study.Base.{
  ℕ, ◌<◌, ◌≡◌, refl, Option, none, some, arith, if◌then◌else◌, inl, inr, Option-cases, take,
}
use c_study.Lru.Hash.{Bytes}
use c_study.Lru.Cache.{
  LruCacheItem, LruCache, lru_cache_ok, lru_cache_key_missing, int_max, set, set_found, get,
  get_step, Got,
}
use c_study.Lru.Keys.{bytes_eq, eq_of_bytes_eq}
use c_study.Lru.Invariant.{bucket, bucket-lt, find, total, IsValid}
use c_study.Lru.Touch.{touch, touch-IsValid, touch-total, find-touch}
use c_study.Lru.Walks.{set_hit, get_hit, get_miss}

-- What LRUCacheGet answers for the item that it found.
abbrev pub answer : Option LruCacheItem → Got
answer (some item) = record {
  ret = lru_cache_ok;
  value = some item.value;
  value_length = item.value_length;
}
answer none = record { ret = lru_cache_key_missing; value = none; value_length = 0 }

abbrev renew : LruCache → Bytes → ℕ → LruCacheItem → LruCacheItem
renew c value n i = record i { value = take n value; value_length = n; age = c.age }

abbrev stamp : LruCache → LruCacheItem → LruCacheItem
stamp c i = record i { age = c.age }

set_found-touch :
    (c : LruCache) (index : ℕ) (item : LruCacheItem) (value : Bytes) (n : ℕ)
    → set_found c index item value n ≡ touch c index item.addr (renew c value n)
unfolding set_found touch
set_found-touch c index item value n = refl

get_step-touch :
    (c : LruCache) (index : ℕ) (item : LruCacheItem)
    → get_step c index (some item) ≡ (touch c index item.addr (stamp c), answer (some item))
unfolding get_step touch
get_step-touch c index item = refl

touch-current_entries :
    (c : LruCache) (index p : ℕ) (f : LruCacheItem → LruCacheItem)
    → (touch c index p f).current_entries ≡ c.current_entries
unfolding touch
touch-current_entries c index p f = refl

module _ (c : LruCache) (key : Bytes) (v : IsValid c) (early : c.age < int_max) where
  -- On a valid cache whose clock is below INT_MAX, LRUCacheSet for a key that is there succeeds and
  -- keeps the cache valid: the key's item gets a copy of the first `n` bytes of the value, the length
  -- and the present age, every other key finds what it found, and the number of items and
  -- `current_entries` stay.
  pub set_replaces :
      (item : LruCacheItem) (value : Bytes) (n : ℕ)
      → find c key ≡ some item
      → (c' : LruCache) × (set c key value n ≡ some c')
        × IsValid c'
        × (total c' ≡ total c)
        × (c'.current_entries ≡ c.current_entries)
        × ((q : Bytes)
            → find c' q ≡ (
                if bytes_eq q key
                then some (record item { value = take n value; value_length = n; age = c.age })
                else find c q))
  set_replaces item value n h = (
    touch c (bucket c key) item.addr (renew c value n),
    rw (set_hit c key v item value n h, set_found-touch),
    touch-IsValid (renew c value n) (λ i. refl) (λ i. refl) c v early (bucket c key) item.addr
        (bucket-lt c key v) (λ i. omega arith),
    touch-total (renew c value n) (λ i. refl) (λ i. refl) c v early (bucket c key) item.addr
        (bucket-lt c key v),
    touch-current_entries c (bucket c key) item.addr (renew c value n),
    λ q. find-touch (renew c value n) (λ i. refl) (λ i. refl) c v early item key q h,
  )

  -- On a valid cache whose clock is below INT_MAX, LRUCacheGet answers with the value and the length
  -- of the key's item, or with LRU_CACHE_KEY_MISSING, NULL and 0; it keeps the cache valid, stamps the
  -- found item with the present age, and changes no other item, no value, and neither the number of
  -- items nor `current_entries`.
  pub get_lem :
      (c' : LruCache) × (get c key ≡ some (c', answer (find c key)))
      × IsValid c'
      × (total c' ≡ total c)
      × (c'.current_entries ≡ c.current_entries)
      × ((q : Bytes)
          → find c' q ≡ (
              if bytes_eq q key
              then Option.map {A = LruCacheItem} (λ i. record i { age = c.age }) (find c key)
              else find c q))
  get_lem = elim (Option-cases (find c key)) [
    | inl h ↦
        (c, rw h (get_miss c key v h), v, refl, refl, λ q. ground (arith, eq_of_bytes_eq q key))
    | inr (item, h) ↦ (
      touch c (bucket c key) item.addr (stamp c),
      rw (h, get_hit c key v item h, get_step-touch),
      touch-IsValid (stamp c) (λ i. refl) (λ i. refl) c v early (bucket c key) item.addr
          (bucket-lt c key v) (λ i. omega arith),
      touch-total (stamp c) (λ i. refl) (λ i. refl) c v early (bucket c key) item.addr
          (bucket-lt c key v),
      touch-current_entries c (bucket c key) item.addr (stamp c),
      λ q. rw h (find-touch (stamp c) (λ i. refl) (λ i. refl) c v early item key q h),
    )
  ]
