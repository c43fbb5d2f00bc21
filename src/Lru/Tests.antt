-- ===== src/Lru/Tests.antt =====
-- The run of lru_cache01/test.c, and the theorems at concrete caches.
use mathlib.Core.Option
use c_study.Base.{
  ℕ, ◌+◌, ◌≤◌, ◌<◌, ◌≡◌, refl, List, [], ◌∷◌, Option, none, some, arith, inl, ◌⊎◌, All,
  if◌then◌else◌,
}
use c_study.Lru.Hash.{Bytes, murmur, hash_index}
use c_study.Lru.Cache.{
  LruCache, LruCacheItem, memcmp, compare_key, walk, next_of, set_next, store, unlink, remove_item,
  visit, scan_chain, scan_table, remove_least_used_item, new, set_chain, set_found, make_room,
  new_item, append_item, set_new, set, get, delete, Got, lru_cache_key_missing,
}
use c_study.Lru.Keys.{bytes_eq, find_key}
use c_study.Lru.Invariant.{find, total, total_items, IsValid, new-IsValid, set_chain_all}
use c_study.Lru.Chains.{IsChain, IsChain-nil}
use c_study.Lru.Update.{answer, get_lem, set_replaces}
use c_study.Lru.Delete.{status, count, delete_lem}
use c_study.Lru.Room.{fresh_item, set_inserts}
use c_study.Lru.Full.{Kept, Lost, set_evicts}
use c_study.Lru.Run.{Call, set_call, get_call, delete_call, run, run_lem}

program : Unit {0}
unfolding hash_index murmur memcmp compare_key walk next_of set_next store unlink remove_item visit
    scan_chain scan_table remove_least_used_item new set_found make_room new_item append_item
    set_new set get delete
program = tt

abbrev one : Bytes
one = b'1' ∷ []

abbrev two : Bytes
two = b'2' ∷ []

abbrev three : Bytes
three = b'3' ∷ []

murmur_runs : murmur 0 (b'a' ∷ b'b' ∷ b'c' ∷ b'd' ∷ b'e' ∷ []) ≡ 1594444229
unfolding murmur
murmur_runs = refl

murmur_signed : murmur 7 (0xff ∷ b'a' ∷ b'b' ∷ []) ≡ 2497284121
unfolding murmur
murmur_signed = refl

abbrev empty : LruCache
empty = new 2 0 0 (λ _. []) 100 (λ _. [])

-- What test.c does up to the eviction of "2", and what it reads then.
abbrev evicting : Option (LruCache × Got)
evicting = Option.bind (set empty one (0xef ∷ 0xbe ∷ 0xad ∷ 0xde ∷ []) 4) λ a.
    Option.bind (set a two (42 ∷ 0 ∷ 0 ∷ 0 ∷ []) 4) λ b.
      Option.bind (get b one)
        λ c. Option.bind (set c.0 three (77 ∷ 0 ∷ 0 ∷ 0 ∷ []) 4) λ d. get d two

evicting_runs :
    Option.map (λ r. r.1) evicting
    ≡ some (record { ret = lru_cache_key_missing; value = none; value_length = 0 })
unfolding program Option.bind
evicting_runs = refl

-- With the seed 0 all three keys share a bucket, "2" is the last item when it is evicted, and test.c
-- fails where it deletes "3".
deleting_fails :
    Option.map (λ r. r.1) (Option.bind evicting (λ e. delete e.0 three))
    ≡ some lru_cache_key_missing
unfolding program Option.bind
deleting_fails = refl

-- The cache of test.c before "3" is stored.
abbrev full : LruCache
full = record {
  items =
      set_chain (λ _. []) 0
        (record { addr = 100; key = one; value = 1 ∷ []; value_length = 1; age = 2 }
          ∷ record { addr = 101; key = two; value = 2 ∷ []; value_length = 1; age = 1 }
          ∷ []);
  hash_table_size = 2;
  capacity = 2;
  current_entries = 2;
  age = 3;
  seed = 0;
  brk = 102;
  stale_next = λ _. [];
}

full-IsValid : IsValid full
unfolding murmur total_items
full-IsValid = record {
  sized = omega arith;
  chains =
      set_chain_all (IsChain 0 2 3 102) (λ _. []) 0 _
        (record {
          linked = omega arith;
          keyed = ((λ e. ground arith, tt), (tt, tt));
          placed = (refl, (refl, tt));
          aged = omega arith;
          fresh = omega arith;
        })
        (λ i. IsChain-nil 0 2 3 102 i);
  counted = omega arith;
  clocked = omega arith;
}

new-IsValid_example : IsValid empty
new-IsValid_example = new-IsValid 2 0 100 (λ _. []) (omega arith)

get_lem_example :
    (c' : LruCache) × (get full two ≡ some (c', answer (find full two)))
    × IsValid c'
    × (total c' ≡ total full)
    × (c'.current_entries ≡ 2)
    × ((q : Bytes)
        → find c' q ≡ (
            if bytes_eq q two
            then Option.map {A = LruCacheItem} (λ i. record i { age = 3 }) (find full two)
            else find full q))
get_lem_example = get_lem full two full-IsValid (omega arith)

abbrev item_two : LruCacheItem
item_two = record { addr = 101; key = two; value = 2 ∷ []; value_length = 1; age = 1 }

set_replaces_example :
    (c' : LruCache) × (set full two (9 ∷ []) 1 ≡ some c')
    × IsValid c'
    × (total c' ≡ total full)
    × (c'.current_entries ≡ 2)
    × ((q : Bytes)
        → find c' q ≡ (
            if bytes_eq q two
            then some (record item_two { value = 9 ∷ []; value_length = 1; age = 3 })
            else find full q))
unfolding find find_key bytes_eq murmur
set_replaces_example = set_replaces full two full-IsValid (omega arith) item_two (9 ∷ []) 1 refl

delete_lem_example :
    (c' : LruCache) × (delete full two ≡ some (c', status (find full two)))
    × IsValid c'
    × (total c' + count (find full two) ≡ total full)
    × (c'.current_entries ≡ 2)
    × ((q : Bytes) → find c' q ≡ (if bytes_eq q two then none else find full q))
delete_lem_example = delete_lem full two full-IsValid

set_inserts_example :
    (c' : LruCache) × (set empty one (9 ∷ []) 1 ≡ some c')
    × IsValid c'
    × (total c' ≡ total empty + 1)
    × (c'.current_entries ≡ empty.current_entries + 1)
    × ((q : Bytes)
        → find c' q
          ≡ (if bytes_eq q one then some (fresh_item empty one (9 ∷ []) 1) else find empty q))
unfolding find find_key murmur new
set_inserts_example =
    set_inserts empty new-IsValid_example (omega arith) one (9 ∷ []) 1 refl refl (inl (omega arith))

set_evicts_example :
    (item : LruCacheItem) × (c' : LruCache) × (find full item.key ≡ some item)
    × ((i : ℕ) → i < 2 → All (λ y. item.age ≤ y.age) (full.items i))
    × (set full three (9 ∷ []) 1 ≡ some c')
    × IsValid c'
    × (c'.current_entries ≡ 2)
    × (Kept full three (9 ∷ []) 1 item c' ⊎ Lost full three item c')
unfolding find find_key bytes_eq murmur total_items
set_evicts_example =
    set_evicts full full-IsValid (omega arith) three (9 ∷ []) 1 refl refl (omega arith)
      (omega arith)

abbrev calls : List Call
calls = set_call three (9 ∷ []) 1 ∷ get_call one ∷ delete_call one ∷ []

run_lem_example :
    (c' : LruCache) × (run calls full ≡ some c')
    × IsValid c'
    × (c'.capacity ≡ 2)
    × (total c' ≤ c'.capacity)
    × (total c' + 2 ≤ total full + c'.current_entries)
unfolding total_items
run_lem_example =
    run_lem calls full full-IsValid (omega arith) (omega arith) (omega arith) (λ a. refl)
