-- ===== src/Lru/Find.antt =====
-- What a search by key finds after the writes to a chain.
use c_study.Base.{
  ℕ, ◌≡◌, refl, ◌≢◌, [], ◌∷◌, ◌++◌, Option, none, some, arith, if◌then◌else◌, inl, inr,
}
use c_study.Lru.Hash.{Bytes}
use c_study.Lru.Cache.{LruCacheItem, Chain, store}
use c_study.Lru.Keys.{bytes_eq, bytes_eq_refl, bytes_eq-false, eq_of_bytes_eq, find_key}
use c_study.Lru.Links.{Avoids, IsLinked, At, remove_addr, At-ne}

abbrev pub AvoidsKey : Bytes → Chain → Type 0
AvoidsKey key [] = Unit
AvoidsKey key (item ∷ chain) = (item.key ≢ key) × AvoidsKey key chain

-- No key stands twice on the chain.
abbrev pub IsKeyed : Chain → Type 0
IsKeyed [] = Unit
IsKeyed (item ∷ chain) = AvoidsKey item.key chain × IsKeyed chain

pub find_key-key :
    (chain : Chain) (key : Bytes) (item : LruCacheItem)
    → find_key key chain ≡ some item
    → item.key ≡ key
unfolding find_key
find_key-key [] key item h = cc
find_key-key (x ∷ chain) key item h =
    ground (arith, eq_of_bytes_eq key x.key, find_key-key chain key item)

pub find_key_absent :
    (chain : Chain) (key : Bytes) → AvoidsKey key chain → find_key key chain ≡ none
unfolding find_key
find_key_absent [] key d = refl
find_key_absent (x ∷ chain) key d =
    ground (arith, bytes_eq-false key x.key, find_key_absent chain key d.1)

pub AvoidsKey-of_find :
    (chain : Chain) (key : Bytes) → find_key key chain ≡ none → AvoidsKey key chain
unfolding find_key
AvoidsKey-of_find [] key h = tt
AvoidsKey-of_find (x ∷ chain) key h = ground (arith, bytes_eq_refl key, AvoidsKey-of_find chain key)

find_key-ne :
    (chain : Chain) (key : Bytes) (item : LruCacheItem) (a : ℕ)
    → find_key key chain ≡ some item
    → Avoids a chain
    → item.addr ≢ a
unfolding find_key
find_key-ne [] key item a h d = cc
find_key-ne (x ∷ chain) key item a h d = ground (arith, find_key-ne chain key item a)

At-AvoidsKey :
    (chain : Chain) (item : LruCacheItem) (q prev : Option ℕ) (key : Bytes)
    → At item q prev chain
    → AvoidsKey key chain
    → item.key ≢ key
At-AvoidsKey [] item q prev key h d = absurd h
At-AvoidsKey (x ∷ chain) item q prev key h d =
    ground (arith, At-AvoidsKey chain item (some x.addr) prev key)

pub find_key-At :
    (chain : Chain) (item : LruCacheItem) (q prev : Option ℕ)
    → IsKeyed chain
    → At item q prev chain
    → find_key item.key chain ≡ some item
unfolding find_key
find_key-At [] item q prev d h = absurd h
find_key-At (x ∷ chain) item q prev d (inl h) = ground (arith, bytes_eq_refl x.key)
find_key-At (x ∷ chain) item q prev d (inr h) = ground (
  arith,
  eq_of_bytes_eq item.key x.key,
  At-AvoidsKey chain item (some x.addr) prev x.key h d.0,
  find_key-At chain item (some x.addr) prev d.1 h,
)

pub find_key-remove_addr :
    (chain : Chain) (item : LruCacheItem) (q prev : Option ℕ) (key : Bytes)
    → IsLinked chain
    → IsKeyed chain
    → At item q prev chain
    → find_key key (remove_addr item.addr chain)
      ≡ (if bytes_eq key item.key then none else find_key key chain)
unfolding find_key remove_addr
find_key-remove_addr [] item q prev key l d h = absurd h
find_key-remove_addr (x ∷ chain) item q prev key l d (inl h) =
    ground (arith, eq_of_bytes_eq key x.key, find_key_absent chain x.key d.0)
find_key-remove_addr (x ∷ chain) item q prev key l d (inr h) = ground (
  arith,
  At-ne chain item (some x.addr) prev x.addr h l.0,
  At-AvoidsKey chain item (some x.addr) prev x.key h d.0,
  eq_of_bytes_eq key x.key,
  eq_of_bytes_eq key item.key,
  find_key-remove_addr chain item (some x.addr) prev key l.1 d.1 h,
)

pub find_key-append :
    (chain : Chain) (item : LruCacheItem) (key : Bytes)
    → find_key item.key chain ≡ none
    → find_key key (chain ++ item ∷ [])
      ≡ (if bytes_eq key item.key then some item else find_key key chain)
unfolding find_key
find_key-append [] item key h = refl
find_key-append (x ∷ chain) item key h = ground (
  arith,
  bytes_eq_refl key,
  eq_of_bytes_eq key x.key,
  eq_of_bytes_eq key item.key,
  find_key-append chain item key,
)

module _ (f : LruCacheItem → LruCacheItem) (f-key : (i : LruCacheItem) → (f i).key ≡ i.key) where
  pub find_key-store :
      (chain : Chain) (item : LruCacheItem) (key found : Bytes)
      → IsLinked chain
      → find_key found chain ≡ some item
      → find_key key (store item.addr f chain)
        ≡ (if bytes_eq key item.key then some (f item) else find_key key chain)
  unfolding find_key store
  find_key-store [] item key found l h = cc
  find_key-store (x ∷ chain) item key found l h = ground (
    arith,
    f-key x,
    f-key item,
    eq_of_bytes_eq key x.key,
    eq_of_bytes_eq key item.key,
    eq_of_bytes_eq found x.key,
    bytes_eq_refl key,
    find_key-key (x ∷ chain) found item,
    find_key-key chain found item,
    find_key-ne chain found item x.addr,
    find_key-store chain item key found l.1,
  )
