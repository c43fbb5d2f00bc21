-- ===== src/Lru/Insert.antt =====
-- LRUCacheSet on a new key: room is made, and the new item is written behind the item that was the
-- last of its chain before room was made.
use c_study.Base.{
  ℕ, ◌+◌, ◌%◌, ◌^◌, ◌≤◌, ◌<◌, ◌≡◌, refl, [], ◌∷◌, ◌++◌, none, some, arith, if◌then◌else◌, length,
  length-append,
}
use c_study.Lru.Hash.{Bytes}
use c_study.Lru.Cache.{LruCache, Chain, set_chain, int_max, new_item}
use c_study.Lru.Keys.{bytes_eq, eq_of_bytes_eq}
use c_study.Lru.Find.{find_key-append}
use c_study.Lru.Chains.{IsChain, IsChain-append, IsChain-later}
use c_study.Lru.Invariant.{
  bucket, bucket-lt, find, total, total_items-set_chain, IsValid, set_chain_all,
}

-- The cache `c`, where room was made, with `chain` for the chain of the new key.
unfoldable pub placed : LruCache → ℕ → Chain → LruCache
placed c index chain = record c {
  items = set_chain c.items index chain;
  current_entries = (c.current_entries + 1) % 2 ^ 64;
  age = (c.age + 1) % 2 ^ 64;
  brk = c.brk + 1;
}

-- The chain with the new item at its end.
abbrev pub extended : LruCache → Bytes → Bytes → ℕ → Chain
extended c key value n = c.items (bucket c key) ++ new_item c key value n ∷ []

module _ (c : LruCache) (v : IsValid c) (early : c.age < int_max) (key value : Bytes) (n : ℕ) where
  pub tick :
      ((c.age + 1) % 2 ^ 64 ≡ c.age + 1)
      × ((c.current_entries + 1) % 2 ^ 64 ≡ c.current_entries + 1)
  tick = omega (arith, v.clocked)

  placed-IsValid :
      (chain : Chain)
      → IsChain c.seed c.hash_table_size (c.age + 1) (c.brk + 1) (bucket c key) chain
      → length chain ≤ length (c.items (bucket c key)) + 1
      → IsValid (placed c (bucket c key) chain)
  unfolding placed
  placed-IsValid chain h short = rw tick.0 (
      rw tick.1 (record {
        sized = v.sized;
        chains =
            set_chain_all (IsChain c.seed c.hash_table_size (c.age + 1) (c.brk + 1)) c.items
              (bucket c key) chain h
              (λ i.
                IsChain-later _ _ _ _ _ _ (v.chains i) (c.age + 1) (c.brk + 1) (omega arith)
                  (omega arith));
        counted = omega (
          arith,
          v.counted,
          bucket-lt c key v,
          total_items-set_chain c.items (bucket c key) chain c.hash_table_size,
        );
        clocked = omega (arith, v.clocked);
      }))

  pub placed-total :
      (chain : Chain)
      → total (placed c (bucket c key) chain) + length (c.items (bucket c key))
        ≡ total c + length chain
  unfolding placed
  placed-total chain =
      total_items-set_chain c.items (bucket c key) chain c.hash_table_size (bucket-lt c key v)

  pub extended-IsValid :
      find c key ≡ none → IsValid (placed c (bucket c key) (extended c key value n))
  unfolding find new_item
  extended-IsValid h =
      placed-IsValid (extended c key value n)
        (IsChain-append _ _ _ _ _ _ (v.chains (bucket c key)) (new_item c key value n) h refl refl
          refl)
        (omega (arith, length-append (c.items (bucket c key)) (new_item c key value n ∷ [])))

  pub find-extended :
      (q : Bytes)
      → find c key ≡ none
      → find (placed c (bucket c key) (extended c key value n)) q
        ≡ (if bytes_eq q key then some (new_item c key value n) else find c q)
  unfolding find placed new_item
  find-extended q h = ground (
    arith,
    eq_of_bytes_eq q key,
    find_key-append (c.items (bucket c key)) (new_item c key value n) q h,
  )

  -- The new item is lost: the chain is left as it is.
  pub lost-IsValid : IsValid (placed c (bucket c key) (c.items (bucket c key)))
  lost-IsValid =
      placed-IsValid (c.items (bucket c key))
        (IsChain-later _ _ _ _ _ _ (v.chains (bucket c key)) (c.age + 1) (c.brk + 1) (omega arith)
          (omega arith))
        (omega arith)

  pub find-lost : (q : Bytes) → find (placed c (bucket c key) (c.items (bucket c key))) q ≡ find c q
  unfolding find placed
  find-lost q = ground arith
