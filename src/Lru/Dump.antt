-- ===== src/Lru/Dump.antt =====
-- lru_cache01/lru_cache.c, LRUCacheDump and LRUCacheFree: the walks over the whole table.
use mathlib.Core.Path.{ap₂}
use mathlib.Core.List.{map-append}
use c_study.Base.{
  ℕ, zero, suc, ◌+◌, ◌≡◌, refl, sym, ap, ◌∙◌, List, [], ◌∷◌, ◌++◌, arith, length, length-append,
  map,
}
use c_study.Lru.Hash.{Bytes}
use c_study.Lru.Cache.{LruCache, Chain}
use c_study.Lru.Invariant.{total_items, total}

-- A line that LRUCacheDump prints: the number, the key and the age of an item.
pub record Line : Type 0 where
  pub num : ℕ
  pub key : Bytes
  pub age : ℕ

dump_chain : ℕ → Chain → List Line
dump_chain num [] = []
dump_chain num (item ∷ next) =
    record { num = num; key = item.key; age = item.age } ∷ dump_chain (num + 1) next

-- The rounds left, the index `i` and `num`.
dump_table : (ℕ → Chain) → ℕ → ℕ → ℕ → List Line
dump_table items zero i num = []
dump_table items (suc rounds) i num =
    dump_chain num (items i) ++ dump_table items rounds (i + 1) (num + length (items i))

unfoldable pub dump : LruCache → List Line
unfolding dump_chain dump_table
dump cache = dump_table cache.items cache.hash_table_size 0 0

-- A call of `free`, by what it releases.
pub data Freed : Type 0 where
  key_of value_of item_of : ℕ → Freed
  items_array cache_itself : Freed

free_chain : Chain → List Freed
free_chain [] = []
free_chain (item ∷ next) =
    key_of item.addr ∷ value_of item.addr ∷ item_of item.addr ∷ free_chain next

free_table : (ℕ → Chain) → ℕ → ℕ → List Freed
free_table items zero i = []
free_table items (suc rounds) i = free_chain (items i) ++ free_table items rounds (i + 1)

-- The calls of `free` in LRUCacheFree, in their order; `items` is never NULL after LRUCacheNew.
unfoldable pub free : LruCache → List Freed
unfolding free_chain free_table
free cache = free_table cache.items cache.hash_table_size 0 ++ items_array ∷ cache_itself ∷ []

-- The items of `rounds` chains from index `i`, chain after chain.
unfoldable pub all_items : (ℕ → Chain) → ℕ → ℕ → Chain
all_items items zero i = []
all_items items (suc rounds) i = items i ++ all_items items rounds (i + 1)

-- The numbers from `n` on, `k` of them.
unfoldable pub count_up : ℕ → ℕ → List ℕ
count_up n zero = []
count_up n (suc k) = n ∷ count_up (n + 1) k

count_up-append : (n k l : ℕ) → count_up n k ++ count_up (n + k) l ≡ count_up n (k + l)
unfolding count_up
count_up-append n zero l =
    let e : n + 0 ≡ n = omega arith in let e' : 0 + l ≡ l = omega arith in rw (e, e')
count_up-append n (suc k) l =
    let e : n + suc k ≡ n + 1 + k = omega arith in
    let e' : suc k + l ≡ suc (k + l) = omega arith in
    rw (e, e') (ap (◌∷◌ n) (count_up-append (n + 1) k l))

dump_chain-nums :
    (num : ℕ) (chain : Chain)
    → map (λ l. l.num) (dump_chain num chain) ≡ count_up num (length chain)
unfolding dump_chain count_up
dump_chain-nums num [] = refl
dump_chain-nums num (x ∷ chain) = ap (◌∷◌ num) (dump_chain-nums (num + 1) chain)

dump_chain-keys :
    (num : ℕ) (chain : Chain) → map (λ l. l.key) (dump_chain num chain) ≡ map (λ x. x.key) chain
unfolding dump_chain
dump_chain-keys num [] = refl
dump_chain-keys num (x ∷ chain) = ap (◌∷◌ x.key) (dump_chain-keys (num + 1) chain)

length-all_items :
    (items : ℕ → Chain) (rounds i : ℕ)
    → total_items items i + length (all_items items rounds i) ≡ total_items items (i + rounds)
unfolding all_items total_items
length-all_items items zero i = let e : i + 0 ≡ i = omega arith in rw e (omega arith)
length-all_items items (suc rounds) i =
    let e : i + suc rounds ≡ suc i + rounds = omega arith in
    let e' : i + 1 ≡ suc i = omega arith in
    rw (e, e')
      (omega (
        arith,
        length-append (items i) (all_items items rounds (suc i)),
        length-all_items items rounds (suc i),
      ))

all_items-total :
    (cache : LruCache) → length (all_items cache.items cache.hash_table_size 0) ≡ total cache
unfolding total_items
all_items-total cache =
    let e : 0 + cache.hash_table_size ≡ cache.hash_table_size = omega arith in
    omega
      (arith, length-all_items cache.items cache.hash_table_size 0, ap (total_items cache.items) e)

dump_table-nums :
    (items : ℕ → Chain) (rounds i num : ℕ)
    → map (λ l. l.num) (dump_table items rounds i num)
      ≡ count_up num (length (all_items items rounds i))
unfolding dump_table all_items count_up
dump_table-nums items zero i num = refl
dump_table-nums items (suc rounds) i num =
    map-append (λ l. l.num) (dump_chain num (items i)) _
    ∙ ap₂ ◌++◌ (dump_chain-nums num (items i))
        (dump_table-nums items rounds (i + 1) (num + length (items i)))
    ∙ count_up-append num (length (items i)) (length (all_items items rounds (i + 1)))
    ∙ ap (count_up num) (sym (length-append (items i) (all_items items rounds (i + 1))))

dump_table-keys :
    (items : ℕ → Chain) (rounds i num : ℕ)
    → map (λ l. l.key) (dump_table items rounds i num) ≡ map (λ x. x.key) (all_items items rounds i)
unfolding dump_table all_items
dump_table-keys items zero i num = refl
dump_table-keys items (suc rounds) i num =
    map-append (λ l. l.key) (dump_chain num (items i)) _
    ∙ ap₂ ◌++◌ (dump_chain-keys num (items i))
        (dump_table-keys items rounds (i + 1) (num + length (items i)))
    ∙ sym (map-append (λ x. x.key) (items i) (all_items items rounds (i + 1)))

-- LRUCacheDump prints one line for each item, numbered upwards from 0, with the keys in the order of
-- the buckets and of the items on their chains.
dump_lem :
    (cache : LruCache)
    → (map (λ l. l.num) (dump cache) ≡ count_up 0 (total cache))
      × (map (λ l. l.key) (dump cache)
          ≡ map (λ x. x.key) (all_items cache.items cache.hash_table_size 0))
unfolding dump
dump_lem cache = (
  dump_table-nums cache.items cache.hash_table_size 0 0 ∙ ap (count_up 0) (all_items-total cache),
  dump_table-keys cache.items cache.hash_table_size 0 0,
)
