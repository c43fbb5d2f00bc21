-- ===== src/Lru/OneSlot.antt =====
-- A cache of one entry loses every second new key.
use mathlib.Core.Path.{subst}
use native.Mathlib.Nat.{mod-lt}
use c_study.Base.{ℕ, ◌≤◌, ◌<◌, ◌≡◌, sym, ap, ◌∙◌, [], ◌∷◌, none, some, arith, length, inl, inr}
use c_study.Lru.Hash.{Bytes, murmur}
use c_study.Lru.Cache.{LruCacheItem, LruCache, Chain, int_max, set}
use c_study.Lru.Keys.{find_key}
use c_study.Lru.Links.{last_addr}
use c_study.Lru.Invariant.{bucket, find, total, total_items, IsValid}
use c_study.Lru.Room.{IsTail}
use c_study.Lru.Full.{set_evicts}

-- On a chain of one item, the item that a search finds is the last one.
find_key-last_addr :
    (chain : Chain) (key : Bytes) (item : LruCacheItem)
    → length chain ≡ 1
    → find_key key chain ≡ some item
    → last_addr none chain ≡ some item.addr
unfolding find_key last_addr
find_key-last_addr [] key item e h = absurd (omega arith)
find_key-last_addr (x ∷ []) key item e h = ground arith
find_key-last_addr (x ∷ y ∷ chain) key item e h = absurd (omega arith)

total-one : (c : LruCache) → c.hash_table_size ≡ 1 → total c ≡ length (c.items 0)
unfolding total_items
total-one c e = rw e (omega arith)

module _ (c : LruCache) (one : c.hash_table_size ≡ 1) where
  bucket-zero : (key : Bytes) → bucket c key ≡ 0
  bucket-zero key = omega (arith, mod-lt (murmur c.seed key) {m = c.hash_table_size} (omega arith))

  find-IsTail :
      (key : Bytes) (item : LruCacheItem)
      → total c ≡ 1
      → find c item.key ≡ some item
      → IsTail c key item
  unfolding find
  find-IsTail key item e h = (
    bucket-zero item.key ∙ sym (bucket-zero key),
    find_key-last_addr (c.items (bucket c key)) item.key item
        (ap (λ b. length (c.items b)) (bucket-zero key) ∙ sym (total-one c one) ∙ e)
        (subst (λ b. find_key item.key (c.items b) ≡ some item)
          (bucket-zero item.key ∙ sym (bucket-zero key)) h),
  )

-- On a valid cache with one bucket, whose one item fills it and whose clock is below INT_MAX,
-- LRUCacheSet for another key succeeds and loses both: neither the new key nor any other is found.
set_one_slot :
    (c : LruCache) (key value : Bytes) (n : ℕ)
    → IsValid c
    → c.age < int_max
    → c.hash_table_size ≡ 1
    → total c ≡ 1
    → c.capacity ≤ c.current_entries
    → c.stale_next c.brk ≡ []
    → find c key ≡ none
    → (c' : LruCache) × (set c key value n ≡ some c') × (total c' ≡ 0) × (find c' key ≡ none)
set_one_slot c key value n v early one single full null_next absent =
    let (item, c', here, _, e, valid, _, cases) =
      set_evicts c v early key value n null_next absent full (omega arith) in
    elim cases [
      | inl k ↦ absurd (k.0 (find-IsTail c one key item single here))
      | inr k ↦ (c', e, omega (arith, k.1), k.2 key ∙ ground arith)
    ]
