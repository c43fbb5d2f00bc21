-- ===== src/Lru/Room.antt =====
-- LRUCacheSet on a new key, end to end: with room, with an eviction, and with an eviction of the item
-- that `prev` points at.
use native.Mathlib.Decide.{dec_lt}
use c_study.Base.{
  ℕ, ◌+◌, ◌≤◌, ◌<◌, ◌≡◌, refl, ap, ◌∙◌, ◌⊎◌, [], ◌∷◌, Option, none, some, arith, if◌then◌else◌, inl,
  inr, take, length-append,
}
use c_study.Lru.Hash.{Bytes}
use c_study.Lru.Cache.{
  LruCacheItem, LruCache, Chain, int_max, set, set_new, make_room, new_item, append_item,
  remove_least_used_item,
}
use c_study.Lru.Keys.{bytes_eq}
use c_study.Lru.Links.{last_addr}
use c_study.Lru.Unlink.{append_item-last_addr}
use c_study.Lru.Invariant.{bucket, find, total, IsValid}
use c_study.Lru.Victim.{evicted-total, remove_least_used_item-Removal}
use c_study.Lru.Insert.{placed, extended, tick, placed-total, extended-IsValid, find-extended}
use c_study.Lru.Walks.{set_miss}

-- The item that LRUCacheSet makes for a new key.
abbrev pub fresh_item : LruCache → Bytes → Bytes → ℕ → LruCacheItem
fresh_item c key value n = record {
  addr = c.brk;
  key = key;
  value = take n value;
  value_length = n;
  age = c.age;
}

-- `item` is the last one of the chain on which `key` belongs.
abbrev pub IsTail : LruCache → Bytes → LruCacheItem → Type 0
IsTail c key item =
    (bucket c item.key ≡ bucket c key) × (last_addr none (c.items (bucket c key)) ≡ some item.addr)

pub new_item-fresh_item :
    (c : LruCache) (key value : Bytes) (n : ℕ) → new_item c key value n ≡ fresh_item c key value n
unfolding new_item
new_item-fresh_item c key value n = refl

pub placed-current_entries :
    (c : LruCache) (v : IsValid c) (early : c.age < int_max) (key value : Bytes) (n index : ℕ)
    (chain : Chain)
    → (placed c index chain).current_entries ≡ c.current_entries + 1
unfolding placed
placed-current_entries c v early key value n index chain = (tick c v early key value n).1

pub set_new-placed :
    (c : LruCache) (index : ℕ) (prev : Option ℕ) (key value : Bytes) (n : ℕ)
    → set_new c index prev key value n
      ≡ placed (make_room c) index (
          append_item prev
            (new_item (make_room c) key value n)
            ((make_room c).stale_next (make_room c).brk)
            ((make_room c).items index))
unfolding set_new placed
set_new-placed c index prev key value n = refl

pub make_room_full :
    (c : LruCache) → c.capacity ≤ c.current_entries → make_room c ≡ remove_least_used_item c
unfolding make_room
make_room_full c h = ground arith

make_room_free : (c : LruCache) → c.current_entries < c.capacity → make_room c ≡ c
unfolding make_room
make_room_free c h = ground arith

module _ (c : LruCache) (v : IsValid c) (early : c.age < int_max) (key value : Bytes) (n : ℕ)
    (null_next : c.stale_next c.brk ≡ []) (absent : find c key ≡ none) where
  -- Where no item goes, the cache becomes the one with the new item at the end of its chain.
  set_new_kept :
      make_room c ≡ c → set c key value n ≡ some (placed c (bucket c key) (extended c key value n))
  set_new_kept room =
      set_miss c key v value n absent
      ∙ ap some (
          set_new-placed c (bucket c key) (last_addr none (c.items (bucket c key))) key value n
          ∙ rw (
            room,
            null_next,
            append_item-last_addr (c.items (bucket c key)) (new_item c key value n)
                (v.chains (bucket c key)).linked,
          ))

  make_room_empty : c.capacity ≤ c.current_entries → total c ≡ 0 → make_room c ≡ c
  make_room_empty full none_left = elim (remove_least_used_item-Removal c v (omega arith)) [
    | inl (_, same) ↦ make_room_full c full ∙ same
    | inr (item, index, prev, w, e) ↦ absurd (omega (arith, evicted-total c item index prev v w))
  ]

  make_room_same : (c.current_entries < c.capacity) ⊎ (total c ≡ 0) → make_room c ≡ c
  make_room_same (inl free) = make_room_free c free
  make_room_same (inr none_left) = elim (dec_lt c.current_entries c.capacity) [
    | yes free ↦ make_room_free c free
    | no full ↦ make_room_empty (omega arith) none_left
  ]

  -- On a valid cache whose clock is below INT_MAX, where the memory that `malloc` returns for the item happens
  -- to hold NULL for `next`, LRUCacheSet for a new key, where
  -- `current_entries` is below the capacity or no item is left, succeeds and keeps the cache valid:
  -- the key finds a new item with a copy of the first `n` bytes of the value, the length and the
  -- present age, every other key finds what it found, and the number of items and `current_entries`
  -- go up by one.
  pub set_inserts :
      (c.current_entries < c.capacity) ⊎ (total c ≡ 0)
      → (c' : LruCache) × (set c key value n ≡ some c')
        × IsValid c'
        × (total c' ≡ total c + 1)
        × (c'.current_entries ≡ c.current_entries + 1)
        × ((q : Bytes)
            → find c' q ≡ (if bytes_eq q key then some (fresh_item c key value n) else find c q))
  set_inserts room = (
    placed c (bucket c key) (extended c key value n),
    set_new_kept (make_room_same room),
    extended-IsValid c v early key value n absent,
    omega (
      arith,
      placed-total c v early key value n (extended c key value n),
      length-append (c.items (bucket c key)) (new_item c key value n ∷ []),
    ),
    placed-current_entries c v early key value n (bucket c key) (extended c key value n),
    λ q. find-extended c v early key value n q absent ∙ rw new_item-fresh_item,
  )
