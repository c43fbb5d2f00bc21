-- ===== src/Lru/Links.antt =====
-- Chains as linked lists: where the pointers of a walk point, and what the pointer writes of
-- lru_cache.c do to a chain whose items stand at different addresses.
use c_study.Base.{
  ℕ, ◌≡◌, ◌≢◌, [], ◌∷◌, Option, none, some, arith, ◌==◌, if◌then◌else◌, ◌⊎◌, inl, inr,
}
use c_study.Lru.Cache.{LruCacheItem, Chain, walk}
use c_study.Lru.Hash.{Bytes}

-- No item stands at the address.
abbrev pub Avoids : ℕ → Chain → Type 0
Avoids a [] = Unit
Avoids a (item ∷ chain) = (item.addr ≢ a) × Avoids a chain

abbrev pub IsLinked : Chain → Type 0
IsLinked [] = Unit
IsLinked (item ∷ chain) = Avoids item.addr chain × IsLinked chain

-- `item` is on the chain and `prev` points at the item before it; `q` points before the chain.
abbrev pub At : LruCacheItem → Option ℕ → Option ℕ → Chain → Type 0
At item q prev [] = ⊥
At item q prev (x ∷ chain) = ((x ≡ item) × (q ≡ prev)) ⊎ At item (some x.addr) prev chain

-- The address of the last item, or `q`.
unfoldable pub last_addr : Option ℕ → Chain → Option ℕ
last_addr q [] = q
last_addr q (item ∷ chain) = last_addr (some item.addr) chain

unfoldable pub remove_addr : ℕ → Chain → Chain
remove_addr a [] = []
remove_addr a (item ∷ chain) = if item.addr == a then chain else item ∷ remove_addr a chain

pub walk_hit :
    (chain : Chain) (key : Bytes) (q prev : Option ℕ) (item : LruCacheItem)
    → walk chain key q ≡ (prev, some item)
    → At item q prev chain
unfolding walk
walk_hit [] key q prev item h = cc
walk_hit (x ∷ chain) key q prev item h = ground (arith, walk_hit chain key (some x.addr) prev item)

pub walk_miss :
    (chain : Chain) (key : Bytes) (q prev : Option ℕ)
    → walk chain key q ≡ (prev, none)
    → prev ≡ last_addr q chain
unfolding walk last_addr
walk_miss [] key q prev h = ground arith
walk_miss (x ∷ chain) key q prev h = ground (arith, walk_miss chain key (some x.addr) prev)

-- An item on a chain is at none of the addresses that the chain avoids.
pub At-ne :
    (chain : Chain) (item : LruCacheItem) (q prev : Option ℕ) (a : ℕ)
    → At item q prev chain
    → Avoids a chain
    → item.addr ≢ a
At-ne [] item q prev a h d = absurd h
At-ne (x ∷ chain) item q prev a h d = ground (arith, At-ne chain item (some x.addr) prev a)

-- Below the head of a chain the pointer before an item is no NULL, and points into the chain.
pub At-prev :
    (x : LruCacheItem) (chain : Chain) (item : LruCacheItem) (prev : Option ℕ) (a : ℕ)
    → At item (some x.addr) prev chain
    → Avoids a (x ∷ chain)
    → (p : ℕ) × (prev ≡ some p) × (p ≢ a)
At-prev x [] item prev a h d = absurd h
At-prev x (y ∷ chain) item prev a (inl e) d = (x.addr, ground arith, d.0)
At-prev x (y ∷ chain) item prev a (inr h) d = At-prev y chain item prev a h d.1
