-- ===== src/Lru/Cache.antt =====
-- lru_cache01/lru_cache.h and lru_cache.c: the cache, its chains and every operation.
-- A chain is the list of the items that are reached from `items[i]` by `next`; `addr` is the address
-- of an item, by which `prev` and `item` point at it. A write `prev->next = item` changes a chain only
-- if `prev` is still on it. An item is on one chain at most, the one of its bucket. `malloc` is taken
-- to succeed; what it leaves in memory that the source does not write is given. The mutex makes each operation one atomic step.
use c_study.Base.{
  ℕ, zero, suc, ◌+◌, ◌-◌, ◌%◌, ◌^◌, List, [], ◌∷◌, Option, none, some, ltb, leb, ◌==◌,
  if◌then◌else◌, length, take,
}
use c_study.Lru.Hash.{Bytes, hash_index}

pub data LruCacheError : Type 0 where
  lru_cache_ok lru_cache_key_missing : LruCacheError

pub record LruCacheItem : Type 0 where
  pub addr : ℕ
  pub key : Bytes
  pub value : Bytes
  pub value_length : ℕ
  pub age : ℕ

-- `brk` is the address of the next allocation, and `stale_next` says which items are reached from the `next`
-- of an item as `malloc` returns it at an address: LRUCacheSet does not write `next`.
pub record LruCache : Type 0 where
  pub items : ℕ → List LruCacheItem
  pub hash_table_size : ℕ
  pub capacity : ℕ
  pub current_entries : ℕ
  pub age : ℕ
  pub seed : ℕ
  pub brk : ℕ
  pub stale_next : ℕ → List LruCacheItem

abbrev pub Chain : Type 0
Chain = List LruCacheItem

abbrev pub int_max : ℕ
int_max = 2 ^ 31 - 1

-- `memcmp(a, b, n)`, as far as the source reads it: zero or not.
unfoldable pub memcmp : ℕ → Bytes → Bytes → ℕ
memcmp zero a b = 0
memcmp (suc n) (x ∷ a) (y ∷ b) = if x == y then memcmp n a b else 1
memcmp (suc n) _ _ = 1

unfoldable pub compare_key : LruCacheItem → Bytes → ℕ
compare_key item key = if length key == length item.key then memcmp (length key) key item.key else 1

-- The loop of Set, Get and Delete over a chain: the last `prev`, and the item if there is one.
unfoldable pub walk : Chain → Bytes → Option ℕ → Option ℕ × Option LruCacheItem
walk [] key prev = (prev, none)
walk (item ∷ next) key prev =
    if compare_key item key == 0 then (prev, some item) else walk next key (some item.addr)

-- `p->next`, and `p->next = next` for an item `p` of the chain.
unfoldable pub next_of : ℕ → Chain → Chain
next_of p [] = []
next_of p (item ∷ chain) = if item.addr == p then chain else next_of p chain

unfoldable pub set_next : ℕ → Chain → Chain → Chain
set_next p next [] = []
set_next p next (item ∷ chain) =
    if item.addr == p then item ∷ next else item ∷ set_next p next chain

-- A write through `p`, an item of the chain.
unfoldable pub store : ℕ → (LruCacheItem → LruCacheItem) → Chain → Chain
store p f [] = []
store p f (item ∷ chain) = if item.addr == p then f item ∷ chain else item ∷ store p f chain

abbrev pub set_chain : (ℕ → Chain) → ℕ → Chain → ℕ → Chain
set_chain items index chain j = if index == j then chain else items j

-- The pointer writes of LRUCacheRemoveItem, on the chain of its bucket.
unfoldable pub unlink : Option ℕ → LruCacheItem → Chain → Chain
unlink none item chain = next_of item.addr chain
unlink (some p) item chain = set_next p (next_of item.addr chain) chain

unfoldable pub remove_item : LruCache → Option ℕ → LruCacheItem → ℕ → LruCache
remove_item cache prev item index = record cache {
  items = set_chain cache.items index (unlink prev item (cache.items index));
}

-- The variables of LRUCacheRemoveLeastUsedItem.
pub record Least : Type 0 where
  pub least_used : Option LruCacheItem
  pub least_prev : Option ℕ
  pub least_index : ℕ
  pub least_age : ℕ

-- `if (item->age < least_age) { ... }`
unfoldable pub visit : ℕ → LruCacheItem → Option ℕ → Least → Least
visit i item prev l =
    if ltb item.age l.least_age
    then (record {
      least_used = some item;
      least_prev = prev;
      least_index = i;
      least_age = item.age;
    })
    else l

unfoldable pub scan_chain : ℕ → Chain → Option ℕ → Least → Least
scan_chain i [] prev l = l
scan_chain i (item ∷ next) prev l = scan_chain i next (some item.addr) (visit i item prev l)

-- `for (i = 0; i < n; ++i)`, written from the last round backwards.
unfoldable pub scan_table : (ℕ → Chain) → ℕ → Least → Least
scan_table items zero l = l
scan_table items (suc n) l = scan_chain n (items n) none (scan_table items n l)

abbrev pub no_least : Least
no_least = record { least_used = none; least_prev = none; least_index = 0; least_age = int_max }

unfoldable pub remove_least_used_item : LruCache → LruCache
remove_least_used_item cache =
    let l = scan_table cache.items cache.hash_table_size no_least in
    elim l.least_used [
      | none ↦ cache
      | some item ↦
          let c = remove_item cache l.least_prev item l.least_index in
          record c { current_entries = (c.current_entries + 2 ^ 64 - 1) % 2 ^ 64 }
    ]

-- The parameters from `fresh_age` on are what stands in memory that `malloc` returned and that
-- LRUCacheNew does not write.
unfoldable pub new : ℕ → ℕ → ℕ → (ℕ → Chain) → ℕ → (ℕ → Chain) → LruCache
new entries time fresh_age fresh_items brk stale_next = record {
  items = fresh_items;
  hash_table_size = entries;
  capacity = entries;
  current_entries = 0;
  age = fresh_age;
  seed = time;
  brk = brk;
  stale_next = stale_next;
}

-- `++cache->age` on a uint64_t
abbrev pub tick : ℕ → ℕ
tick age = (age + 1) % 2 ^ 64

-- The branch of LRUCacheSet for a key that is there: `item` gets the new value and the age.
unfoldable pub set_found : LruCache → ℕ → LruCacheItem → Bytes → ℕ → LruCache
set_found cache index item value value_length = record cache {
  items = set_chain cache.items index (
      store item.addr
        (λ i. record i {
          value = take value_length value;
          value_length = value_length;
          age = cache.age;
        })
        (cache.items index));
  age = tick cache.age;
}

-- `if (cache->current_entries >= cache->capacity) LRUCacheRemoveLeastUsedItem(cache);`
unfoldable pub make_room : LruCache → LruCache
make_room cache =
    if leb cache.capacity cache.current_entries then remove_least_used_item cache else cache

unfoldable pub new_item : LruCache → Bytes → Bytes → ℕ → LruCacheItem
new_item cache key value value_length = record {
  addr = cache.brk;
  key = key;
  value = take value_length value;
  value_length = value_length;
  age = cache.age;
}

-- `prev->next = item` or `cache->items[hash_index] = item`; `stale` is reached from the `next` of the item.
unfoldable pub append_item : Option ℕ → LruCacheItem → Chain → Chain → Chain
append_item none item stale chain = item ∷ stale
append_item (some p) item stale chain = set_next p (item ∷ stale) chain

-- The branch of LRUCacheSet for a new key; `prev` was found before room is made.
unfoldable pub set_new : LruCache → ℕ → Option ℕ → Bytes → Bytes → ℕ → LruCache
set_new cache index prev key value value_length =
    let c = make_room cache in
    record c {
      items = set_chain c.items index (
          append_item prev (new_item c key value value_length) (c.stale_next c.brk)
            (c.items index));
      current_entries = (c.current_entries + 1) % 2 ^ 64;
      age = tick c.age;
      brk = c.brk + 1;
    }

unfoldable pub set_step :
    LruCache → ℕ → Option ℕ × Option LruCacheItem → Bytes → Bytes → ℕ → LruCache
set_step cache index (prev, some item) key value value_length =
    set_found cache index item value value_length
set_step cache index (prev, none) key value value_length =
    set_new cache index prev key value value_length

-- LRUCacheSet; `none` is a trap.
unfoldable pub set : LruCache → Bytes → Bytes → ℕ → Option LruCache
unfolding set_step
set cache key value value_length = elim (hash_index cache.seed cache.hash_table_size key) [
  | none ↦ none
  | some index ↦
      some (set_step cache index (walk (cache.items index) key none) key value value_length)
]

-- What LRUCacheGet returns and writes through its arguments; `value = none` is NULL.
pub record Got : Type 0 where
  pub ret : LruCacheError
  pub value : Option Bytes
  pub value_length : ℕ

unfoldable pub get_step : LruCache → ℕ → Option LruCacheItem → LruCache × Got
get_step cache index (some item) = (
  record cache {
    items =
        set_chain cache.items index
          (store item.addr (λ i. record i { age = cache.age }) (cache.items index));
    age = tick cache.age;
  },
  record { ret = lru_cache_ok; value = some item.value; value_length = item.value_length },
)
get_step cache index none =
    (cache, record { ret = lru_cache_key_missing; value = none; value_length = 0 })

unfoldable pub get : LruCache → Bytes → Option (LruCache × Got)
unfolding get_step
get cache key = elim (hash_index cache.seed cache.hash_table_size key) [
  | none ↦ none
  | some index ↦ some (get_step cache index (walk (cache.items index) key none).1)
]

unfoldable pub delete_step :
    LruCache → ℕ → Option ℕ × Option LruCacheItem → LruCache × LruCacheError
delete_step cache index (prev, some item) = (remove_item cache prev item index, lru_cache_ok)
delete_step cache index (prev, none) = (cache, lru_cache_key_missing)

unfoldable pub delete : LruCache → Bytes → Option (LruCache × LruCacheError)
unfolding delete_step
delete cache key = elim (hash_index cache.seed cache.hash_table_size key) [
  | none ↦ none
  | some index ↦ some (delete_step cache index (walk (cache.items index) key none))
]
