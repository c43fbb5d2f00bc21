-- ===== src/Lru/Invariant.antt =====
-- The state of a cache that LRUCacheNew and the operations keep, and the search that an operation sees.
use c_study.Base.{
  ℕ, zero, suc, ◌+◌, ◌%◌, ◌≤◌, ◌<◌, ◌≡◌, refl, [], ◌∷◌, Option, none, some, arith, All, length,
  ◌==◌, if◌then◌else◌, inl, inr, Bool-cases,
}
use mathlib.Core.Path.{subst}
use native.Mathlib.Nat.{mod-lt}
use c_study.Lru.Hash.{Bytes, murmur}
use c_study.Lru.Cache.{LruCacheItem, LruCache, Chain, set_chain, new}
use c_study.Lru.Keys.{bytes_eq, eq_of_bytes_eq, bytes_eq_refl, bytes_eq-false, find_key}
use c_study.Lru.Links.{At, remove_addr}
use c_study.Lru.Find.{find_key-remove_addr, find_key-At}
use c_study.Lru.Chains.{IsChain, IsChain-nil, IsChain-remove_addr, length-remove_addr}

-- The index of the key's bucket.
abbrev pub bucket : LruCache → Bytes → ℕ
bucket c key = murmur c.seed key % c.hash_table_size

-- The item that a search for the key reaches.
unfoldable pub find : LruCache → Bytes → Option LruCacheItem
find c key = find_key key (c.items (bucket c key))

-- The number of items on the first `n` chains.
unfoldable pub total_items : (ℕ → Chain) → ℕ → ℕ
total_items items zero = 0
total_items items (suc n) = total_items items n + length (items n)

abbrev pub total : LruCache → ℕ
total c = total_items c.items c.hash_table_size

pub record IsValid (c : LruCache) : Type 0 where
  pub sized : 0 < c.hash_table_size
  pub chains : (i : ℕ) → IsChain c.seed c.hash_table_size c.age c.brk i (c.items i)
  pub counted : total c ≤ c.current_entries
  pub clocked : c.current_entries ≤ c.age

pub set_chain_all {κ} :
    (P : ℕ → Chain → Type κ) (items : ℕ → Chain) (index : ℕ) (chain : Chain)
    → P index chain
    → ((i : ℕ) → P i (items i))
    → (i : ℕ) → P i (set_chain items index chain i)
set_chain_all P items index chain h all i = elim (Bool-cases (index == i)) [
  | inl e ↦ rw e (subst (λ j. P j chain) (ground arith) h)
  | inr e ↦ rw e (all i)
]

total_items-set_chain_le :
    (items : ℕ → Chain) (index : ℕ) (chain : Chain) (n : ℕ)
    → n ≤ index
    → total_items (set_chain items index chain) n ≡ total_items items n
unfolding total_items
total_items-set_chain_le items index chain zero h = refl
total_items-set_chain_le items index chain (suc n) h =
    ground (arith, total_items-set_chain_le items index chain n)

pub total_items-set_chain :
    (items : ℕ → Chain) (index : ℕ) (chain : Chain) (n : ℕ)
    → index < n
    → total_items (set_chain items index chain) n + length (items index)
      ≡ total_items items n + length chain
unfolding total_items
total_items-set_chain items index chain zero h = absurd (omega arith)
total_items-set_chain items index chain (suc n) h =
    ground (
      arith,
      total_items-set_chain items index chain n,
      total_items-set_chain_le items index chain n,
    )

pub total_items_nil :
    (items : ℕ → Chain) (n : ℕ) → ((i : ℕ) → i < n → items i ≡ []) → total_items items n ≡ 0
unfolding total_items
total_items_nil items zero h = refl
total_items_nil items (suc n) h =
    ground (arith, h n (omega arith), total_items_nil items n (λ i k. h i (omega arith)))

-- A chain with an item on it counts.
pub length-le-total_items :
    (items : ℕ → Chain) (index n : ℕ) → index < n → length (items index) ≤ total_items items n
unfolding total_items
length-le-total_items items index zero h = absurd (omega arith)
length-le-total_items items index (suc n) h = ground (arith, length-le-total_items items index n)

pub All-At {κ} :
    (P : LruCacheItem → Type κ) (chain : Chain) (item : LruCacheItem) (q prev : Option ℕ)
    → All P chain
    → At item q prev chain
    → P item
All-At P [] item q prev h k = absurd k
All-At P (x ∷ chain) item q prev h (inl k) = subst P k.0 h.0
All-At P (x ∷ chain) item q prev h (inr k) = All-At P chain item (some x.addr) prev h.1 k

pub bucket-lt : (c : LruCache) (key : Bytes) → IsValid c → bucket c key < c.hash_table_size
bucket-lt c key v = mod-lt (murmur c.seed key) v.sized

-- The cache without the item at address `a` of chain `index`.
unfoldable pub without : LruCache → ℕ → ℕ → LruCache
without c index a = record c { items = set_chain c.items index (remove_addr a (c.items index)) }

module _ (c : LruCache) (v : IsValid c) (index : ℕ) (item : LruCacheItem) (q prev : Option ℕ)
    (at : At item q prev (c.items index)) where
  pub bucket-At : bucket c item.key ≡ index
  bucket-At = All-At _ (c.items index) item q prev (v.chains index).placed at

  pub find-At : find c item.key ≡ some item
  unfolding find
  find-At = rw bucket-At (find_key-At (c.items index) item q prev (v.chains index).keyed at)

  pub find-without :
      (key : Bytes)
      → find (without c index item.addr) key ≡ (if bytes_eq key item.key then none else find c key)
  unfolding find without
  find-without key = ground (
    arith,
    bucket-At,
    bytes_eq_refl key,
    bytes_eq-false key item.key,
    eq_of_bytes_eq key item.key,
    find_key-remove_addr (c.items index) item q prev key (v.chains index).linked
        (v.chains index).keyed at,
  )

  pub without-total : total (without c index item.addr) + 1 ≡ total c
  unfolding without
  without-total = omega (
    arith,
    bucket-lt c item.key v,
    bucket-At,
    total_items-set_chain c.items index (remove_addr item.addr (c.items index)) c.hash_table_size,
    length-remove_addr (c.items index) item q prev at,
  )

  pub without-chains :
      (i : ℕ) → IsChain c.seed c.hash_table_size c.age c.brk i ((without c index item.addr).items i)
  unfolding without
  without-chains =
      set_chain_all (IsChain c.seed c.hash_table_size c.age c.brk) c.items index _
        (IsChain-remove_addr _ _ _ _ _ _ (v.chains index) item.addr) v.chains

-- What LRUCacheNew returns where the memory from `malloc` is zeroed.
pub new-IsValid :
    (entries time brk : ℕ) (stale_next : ℕ → Chain)
    → 0 < entries
    → IsValid (new entries time 0 (λ _. []) brk stale_next)
unfolding new
new-IsValid entries time brk stale_next h = record {
  sized = h;
  chains = λ i. IsChain-nil time entries 0 brk i;
  counted = omega (arith, total_items_nil (λ _. []) entries (λ i k. refl));
  clocked = omega arith;
}
