-- ===== src/Lru/Replace.antt =====
-- LRUCacheSet on a new key of a full cache: the oldest item goes. `prev` was found before, so where
-- that item was the last one of the new key's chain, the new item is written behind it and is lost.
use native.Mathlib.Decide.{ℕ_discrete}
use c_study.Base.{
  ℕ, ◌≤◌, ◌≡◌, refl, ◌≢◌, sym, ap, ◌∙◌, [], ◌∷◌, ◌++◌, Option, none, some, arith, if◌then◌else◌,
  ◌==◌,
}
use c_study.Lru.Hash.{Bytes}
use c_study.Lru.Cache.{LruCacheItem, LruCache, Chain, set, make_room, new_item, append_item}
use c_study.Lru.Links.{last_addr, remove_addr}
use c_study.Lru.Unlink.{append_item-last_addr, append_item-remove_addr, append_item_lost}
use c_study.Lru.Invariant.{bucket, find, IsValid, without, bucket-At}
use c_study.Lru.Victim.{IsVictim, evicted, find-evicted}
use c_study.Lru.Insert.{placed}
use c_study.Lru.Walks.{set_miss}
use c_study.Lru.Room.{fresh_item, IsTail, set_new-placed}

pub evicted-bucket :
    (c : LruCache) (item : LruCacheItem) (index : ℕ) (key : Bytes)
    → (bucket (evicted c item index) key ≡ bucket c key)
      × ((evicted c item index).age ≡ c.age)
      × ((evicted c item index).brk ≡ c.brk)
      × ((evicted c item index).stale_next ≡ c.stale_next)
unfolding evicted without
evicted-bucket c item index key = (refl, refl, refl, refl)

evicted-items :
    (c : LruCache) (item : LruCacheItem) (index i : ℕ)
    → (evicted c item index).items i
      ≡ (if index == i then remove_addr item.addr (c.items index) else c.items i)
unfolding evicted without
evicted-items c item index i = refl

pub evicted-fresh_item :
    (c : LruCache) (item : LruCacheItem) (index : ℕ) (key value : Bytes) (n : ℕ)
    → new_item (evicted c item index) key value n ≡ fresh_item c key value n
unfolding evicted without new_item
evicted-fresh_item c item index key value n = refl

module _ (c : LruCache) (v : IsValid c) (key value : Bytes) (n : ℕ) (item : LruCacheItem)
    (index : ℕ) (prev : Option ℕ) (w : IsVictim c item index prev) where
  abbrev pub after : LruCache
  after = evicted c item index

  abbrev pub tail : Option ℕ
  tail = last_addr none (c.items (bucket c key))

  -- The write `prev->next = item` after the eviction.
  abbrev pub written : Chain
  written = append_item tail (new_item after key value n) [] (after.items (bucket c key))

  items_here :
      index ≡ bucket c key
      → after.items (bucket c key) ≡ remove_addr item.addr (c.items (bucket c key))
  items_here e = evicted-items c item index (bucket c key) ∙ ground arith

  items_elsewhere : index ≢ bucket c key → after.items (bucket c key) ≡ c.items (bucket c key)
  items_elsewhere e = evicted-items c item index (bucket c key) ∙ ground arith

  victim_bucket : bucket c item.key ≡ index
  victim_bucket = bucket-At c v index item none prev w.at

  pub written_kept :
      ¬ IsTail c key item → written ≡ after.items (bucket c key) ++ new_item after key value n ∷ []
  written_kept other = elim (ℕ_discrete index (bucket c key)) [
    | yes e ↦ rw (items_here e) (
        append_item-remove_addr (c.items (bucket c key)) (new_item after key value n) item.addr
          (v.chains (bucket c key)).linked (λ t. other (victim_bucket ∙ e, t)))
    | no e ↦ rw (items_elsewhere e) (
        append_item-last_addr (c.items (bucket c key)) (new_item after key value n)
          (v.chains (bucket c key)).linked)
  ]

  pub written_lost : IsTail c key item → written ≡ after.items (bucket c key)
  written_lost t = rw (items_here (sym victim_bucket ∙ t.0)) (
      append_item_lost (c.items (bucket c key)) (new_item after key value n) item.addr
        (v.chains (bucket c key)).linked t.1)

  pub same_bucket : bucket after key ≡ bucket c key
  same_bucket = (evicted-bucket c item index key).0

  pub after_absent : find c key ≡ none → find after key ≡ none
  after_absent h = find-evicted c item index prev key v w ∙ ground arith

  -- LRUCacheSet is the eviction and then the write.
  pub set_placed :
      c.stale_next c.brk ≡ []
      → find c key ≡ none
      → c.capacity ≤ c.current_entries
      → make_room c ≡ after
      → set c key value n ≡ some (placed after (bucket after key) written)
  set_placed null_next absent full room =
      let frame = evicted-bucket c item index key in
      let same : after.stale_next after.brk ≡ [] =
        ap (λ f. f after.brk) frame.3 ∙ ap c.stale_next frame.2 ∙ null_next in
      set_miss c key v value n absent
      ∙ ap some
          (set_new-placed c (bucket c key) tail key value n ∙ rw (room, same_bucket) (rw same refl))
