-- ===== src/Lru/Victim.antt =====
-- LRUCacheRemoveLeastUsedItem on a valid cache.
use mathlib.Core.Path.{subst}
use c_study.Base.{
  ℕ, ◌+◌, ◌-◌, ◌%◌, ◌^◌, ◌≤◌, ◌<◌, ◌≡◌, refl, sym, ap, ◌∙◌, ◌⊎◌, [], ◌∷◌, Option, none, some, arith,
  All, All-map, inl, inr, if◌then◌else◌,
}
use c_study.Lru.Cache.{
  LruCacheItem, LruCache, Chain, Least, scan_table, no_least, int_max, remove_item,
  remove_least_used_item,
}
use c_study.Lru.Links.{At}
use c_study.Lru.Unlink.{unlink-remove_addr}
use c_study.Lru.Evict.{Holds, scan_table-Holds, scan_table-All}
use c_study.Lru.Hash.{Bytes}
use c_study.Lru.Keys.{bytes_eq}
use c_study.Lru.Invariant.{
  IsValid, find, total, without, without-total, without-chains, find-without, find-At,
}

pub remove_item-without :
    (c : LruCache) (prev : Option ℕ) (item : LruCacheItem) (index : ℕ)
    → IsValid c
    → At item none prev (c.items index)
    → remove_item c prev item index ≡ without c index item.addr
unfolding remove_item without
remove_item-without c prev item index v at =
    rw (unlink-remove_addr (c.items index) item prev (v.chains index).linked at)

-- The item that the scan of the whole table ends with.
pub record IsVictim (c : LruCache) (item : LruCacheItem) (index : ℕ) (prev : Option ℕ)
    : Type 0 where
  pub at : At item none prev (c.items index)
  pub inside : index < c.hash_table_size
  pub oldest : (i : ℕ) → i < c.hash_table_size → All (λ y. item.age ≤ y.age) (c.items i)

-- The cache after that item was removed.
unfoldable pub evicted : LruCache → LruCacheItem → ℕ → LruCache
evicted c item index = record (without c index item.addr) {
  current_entries = c.current_entries - 1;
}

chain_nil :
    (chain : Chain) (age : ℕ)
    → All (λ x. age ≤ x.age) chain
    → All (λ x. x.age < age) chain
    → chain ≡ []
chain_nil [] age h k = refl
chain_nil (x ∷ chain) age h k = absurd (omega arith)

-- `--cache->current_entries`
abbrev drop_entry : LruCache → LruCache
drop_entry d = record d { current_entries = (d.current_entries + 2 ^ 64 - 1) % 2 ^ 64 }

-- With the clock at most INT_MAX the scan finds an oldest item, or the table is empty.
abbrev pub Removal : LruCache → Type 0
Removal c =
    (((i : ℕ) → i < c.hash_table_size → c.items i ≡ []) × (remove_least_used_item c ≡ c))
    ⊎ ((item : LruCacheItem) × (index : ℕ) × (prev : Option ℕ) × IsVictim c item index prev
        × (remove_least_used_item c ≡ evicted c item index))

module _ (c : LruCache) (v : IsValid c) (early : c.age ≤ int_max) where
  abbrev least : Least
  least = scan_table c.items c.hash_table_size no_least

  remove_least_used_item-none : least.least_used ≡ none → remove_least_used_item c ≡ c
  unfolding remove_least_used_item
  remove_least_used_item-none e = rw (e, remove_least_used_item)

  remove_least_used_item-some :
      (item : LruCacheItem)
      → least.least_used ≡ some item
      → remove_least_used_item c
        ≡ drop_entry (remove_item c least.least_prev item least.least_index)
  unfolding remove_least_used_item
  remove_least_used_item-some item e = rw (e, remove_least_used_item)

  drop_entry-without :
      (item : LruCacheItem) (index : ℕ) (prev : Option ℕ)
      → At item none prev (c.items index)
      → drop_entry (without c index item.addr) ≡ evicted c item index
  unfolding evicted without
  drop_entry-without item index prev at =
      ground (arith, v.clocked, v.counted, without-total c v index item none prev at)

  Removal-of :
      (used : Option LruCacheItem)
      → least.least_used ≡ used
      → Holds c.items c.hash_table_size least used
      → Removal c
  Removal-of none e h = inl (
    λ i k.
        chain_nil (c.items i) int_max
          (subst (λ a. All (λ x. a ≤ x.age) (c.items i)) h
            (scan_table-All c.items c.hash_table_size i k))
          (All-map _ _ (λ x p. omega arith) (c.items i) (v.chains i).aged),
    remove_least_used_item-none e,
  )
  Removal-of (some item) e h = inr (
    item,
    least.least_index,
    least.least_prev,
    record {
      at = h.1;
      inside = h.2;
      oldest = λ i k.
          subst (λ a. All (λ x. a ≤ x.age) (c.items i)) (sym h.0)
            (scan_table-All c.items c.hash_table_size i k);
    },
    remove_least_used_item-some item e
        ∙ ap drop_entry (remove_item-without c least.least_prev item least.least_index v h.1)
        ∙ drop_entry-without item least.least_index least.least_prev h.1,
  )

  pub remove_least_used_item-Removal : Removal c
  remove_least_used_item-Removal =
      Removal-of least.least_used refl (scan_table-Holds c.items c.hash_table_size)

pub evicted-IsValid :
    (c : LruCache) (item : LruCacheItem) (index : ℕ) (prev : Option ℕ)
    → IsValid c
    → IsVictim c item index prev
    → IsValid (evicted c item index)
unfolding evicted without
evicted-IsValid c item index prev v w = record {
  sized = v.sized;
  chains = without-chains c v index item none prev w.at;
  counted = omega (arith, v.counted, without-total c v index item none prev w.at);
  clocked = omega (arith, v.clocked);
}

pub evicted-total :
    (c : LruCache) (item : LruCacheItem) (index : ℕ) (prev : Option ℕ)
    → IsValid c
    → IsVictim c item index prev
    → total (evicted c item index) + 1 ≡ total c
unfolding evicted without
evicted-total c item index prev v w = without-total c v index item none prev w.at

pub evicted-current_entries :
    (c : LruCache) (item : LruCacheItem) (index : ℕ) (prev : Option ℕ)
    → IsValid c
    → IsVictim c item index prev
    → (evicted c item index).current_entries + 1 ≡ c.current_entries
unfolding evicted without
evicted-current_entries c item index prev v w =
    omega (arith, v.counted, without-total c v index item none prev w.at)

pub find-evicted :
    (c : LruCache) (item : LruCacheItem) (index : ℕ) (prev : Option ℕ) (key : Bytes)
    → IsValid c
    → IsVictim c item index prev
    → find (evicted c item index) key ≡ (if bytes_eq key item.key then none else find c key)
unfolding evicted find without
find-evicted c item index prev key v w = find-without c v index item none prev w.at key

-- On a valid cache whose clock is at most INT_MAX, LRUCacheRemoveLeastUsedItem finds every chain
-- empty and changes nothing, or it removes one item that no item of the table is older than:
-- a search for its key finds it before and nothing after, a search for another key finds what it
-- found, and `current_entries` and the number of items go down by one.
remove_least_used_item_lem :
    (c : LruCache)
    → IsValid c
    → c.age ≤ int_max
    → (((i : ℕ) → i < c.hash_table_size → c.items i ≡ []) × (remove_least_used_item c ≡ c))
      ⊎ ((item : LruCacheItem) × (find c item.key ≡ some item)
          × ((i : ℕ) → i < c.hash_table_size → All (λ y. item.age ≤ y.age) (c.items i))
          × ((key : Bytes)
              → find (remove_least_used_item c) key
                ≡ (if bytes_eq key item.key then none else find c key))
          × ((remove_least_used_item c).current_entries + 1 ≡ c.current_entries)
          × (total (remove_least_used_item c) + 1 ≡ total c))
remove_least_used_item_lem c v early = elim (remove_least_used_item-Removal c v early) [
  | inl nothing ↦ inl nothing
  | inr (item, index, prev, w, e) ↦ rw e (
      inr (
        item,
        find-At c v index item none prev w.at,
        w.oldest,
        λ key. find-evicted c item index prev key v w,
        evicted-current_entries c item index prev v w,
        evicted-total c item index prev v w,
      ))
]
