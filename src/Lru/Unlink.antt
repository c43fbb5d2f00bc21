-- ===== src/Lru/Unlink.antt =====
-- The pointer writes of lru_cache.c (LRUCacheRemoveItem, and `prev->next = item` in LRUCacheSet) as
-- list operations, on chains whose items stand at different addresses.
use mathlib.Core.Path.{subst}
use c_study.Base.{
  ℕ, ◌≡◌, refl, sym, ◌∙◌, ◌≢◌, [], ◌∷◌, ◌++◌, Option, none, some, arith, inl, inr, Option-cases,
}
use c_study.Lru.Cache.{LruCacheItem, Chain, next_of, set_next, unlink, append_item}
use c_study.Lru.Links.{Avoids, IsLinked, At, last_addr, remove_addr, At-ne, At-prev}

set_next-next_of :
    (x : LruCacheItem) (chain : Chain) (item : LruCacheItem) (p : ℕ)
    → IsLinked (x ∷ chain)
    → At item (some x.addr) (some p) chain
    → set_next p (next_of item.addr (x ∷ chain)) (x ∷ chain) ≡ x ∷ remove_addr item.addr chain
unfolding set_next next_of remove_addr
set_next-next_of x [] item p d h = absurd h
set_next-next_of x (y ∷ chain) item p d (inl h) = ground arith
set_next-next_of x (y ∷ chain) item p d (inr h) = ground (
  arith,
  At-ne chain item (some y.addr) (some p) x.addr h d.0.1,
  At-ne chain item (some y.addr) (some p) y.addr h d.1.0,
  At-prev y chain item (some p) x.addr h d.0,
  set_next-next_of y chain item p d.1 h,
)

At-some : (chain : Chain) (item : LruCacheItem) (a : ℕ) → At item (some a) none chain → ⊥
At-some [] item a h = h
At-some (x ∷ chain) item a (inl h) = ground arith
At-some (x ∷ chain) item a (inr h) = At-some chain item x.addr h

-- Unlinking takes exactly that item off the chain.
pub unlink-remove_addr :
    (chain : Chain) (item : LruCacheItem) (prev : Option ℕ)
    → IsLinked chain
    → At item none prev chain
    → unlink prev item chain ≡ remove_addr item.addr chain
unfolding unlink next_of set_next remove_addr
unlink-remove_addr [] item prev d h = absurd h
unlink-remove_addr (x ∷ chain) item none d (inl e) = ground arith
unlink-remove_addr (x ∷ chain) item (some p) d (inl e) = ground arith
unlink-remove_addr (x ∷ chain) item none d (inr h) = absurd (At-some chain item x.addr h)
unlink-remove_addr (x ∷ chain) item (some p) d (inr h) = ground (
  arith,
  set_next-next_of x chain item p d h,
  At-ne chain item (some x.addr) (some p) x.addr h d.0,
)

pub Avoids-remove_addr : (chain : Chain) (a b : ℕ) → Avoids a chain → Avoids a (remove_addr b chain)
unfolding remove_addr
Avoids-remove_addr [] a b d = tt
Avoids-remove_addr (x ∷ chain) a b d = ground (arith, Avoids-remove_addr chain a b d.1)

pub Avoids-remove_addr_self :
    (chain : Chain) (a : ℕ) → IsLinked chain → Avoids a (remove_addr a chain)
unfolding remove_addr
Avoids-remove_addr_self [] a d = tt
Avoids-remove_addr_self (x ∷ chain) a d = ground (arith, Avoids-remove_addr_self chain a d.1)

pub IsLinked-remove_addr : (chain : Chain) (a : ℕ) → IsLinked chain → IsLinked (remove_addr a chain)
unfolding remove_addr
IsLinked-remove_addr [] a d = tt
IsLinked-remove_addr (x ∷ chain) a d =
    ground (arith, IsLinked-remove_addr chain a d.1, Avoids-remove_addr chain x.addr a d.0)

pub set_next_absent : (chain next : Chain) (p : ℕ) → Avoids p chain → set_next p next chain ≡ chain
unfolding set_next
set_next_absent [] next p d = refl
set_next_absent (x ∷ chain) next p d = ground (arith, set_next_absent chain next p d.1)

last_addr-ne :
    (x : LruCacheItem) (chain : Chain) (a p : ℕ)
    → Avoids a (x ∷ chain)
    → last_addr (some x.addr) chain ≡ some p
    → p ≢ a
unfolding last_addr
last_addr-ne x [] a p d h = ground arith
last_addr-ne x (y ∷ chain) a p d h = last_addr-ne y chain a p d.1 h

set_next-last_addr :
    (x : LruCacheItem) (chain : Chain) (item : LruCacheItem) (p : ℕ)
    → IsLinked (x ∷ chain)
    → last_addr (some x.addr) chain ≡ some p
    → set_next p (item ∷ []) (x ∷ chain) ≡ x ∷ (chain ++ item ∷ [])
unfolding set_next last_addr
set_next-last_addr x [] item p d h = ground arith
set_next-last_addr x (y ∷ chain) item p d h =
    ground (arith, last_addr-ne y chain x.addr p d.0 h, set_next-last_addr y chain item p d.1 h)

last_addr-some : (chain : Chain) (a : ℕ) → last_addr (some a) chain ≢ none
unfolding last_addr
last_addr-some [] a h = cc
last_addr-some (x ∷ chain) a h = last_addr-some chain x.addr h

-- A new item that is written behind the last one of the chain ends it.
pub append_item-last_addr :
    (chain : Chain) (item : LruCacheItem)
    → IsLinked chain
    → append_item (last_addr none chain) item [] chain ≡ chain ++ item ∷ []
unfolding append_item last_addr
append_item-last_addr [] item d = refl
append_item-last_addr (x ∷ chain) item d = elim (Option-cases (last_addr (some x.addr) chain)) [
  | inl e ↦ absurd (last_addr-some chain x.addr e)
  | inr (p, e) ↦ rw (e, append_item) (set_next-last_addr x chain item p d e)
]

last_addr-remove_addr :
    (chain : Chain) (q : Option ℕ) (a p : ℕ)
    → last_addr q chain ≡ some p
    → p ≢ a
    → last_addr q (remove_addr a chain) ≡ some p
unfolding last_addr remove_addr
last_addr-remove_addr [] q a p h d = h
last_addr-remove_addr (x ∷ []) q a p h d = ground arith
last_addr-remove_addr (x ∷ y ∷ chain) q a p h d =
    ground (arith, last_addr-remove_addr (y ∷ chain) (some x.addr) a p h d)

-- The same after another item was taken off the chain.
pub append_item-remove_addr :
    (chain : Chain) (item : LruCacheItem) (a : ℕ)
    → IsLinked chain
    → last_addr none chain ≢ some a
    → append_item (last_addr none chain) item [] (remove_addr a chain)
      ≡ remove_addr a chain ++ item ∷ []
unfolding remove_addr last_addr append_item
append_item-remove_addr [] item a d h = refl
append_item-remove_addr (x ∷ chain) item a d h = elim (Option-cases (last_addr none (x ∷ chain))) [
  | inl e ↦ absurd (last_addr-some chain x.addr e)
  | inr (p, e) ↦
      let kept = remove_addr a (x ∷ chain) in
      let same : last_addr none kept ≡ some p =
        last_addr-remove_addr (x ∷ chain) none a p e (λ q. h (rw (← q) e)) in
      subst (λ q. append_item q item [] kept ≡ kept ++ item ∷ []) (same ∙ sym e)
        (append_item-last_addr kept item (IsLinked-remove_addr (x ∷ chain) a d))
]

-- If that other item was the last one, the write goes to an item off the chain, and is lost.
pub append_item_lost :
    (chain : Chain) (item : LruCacheItem) (a : ℕ)
    → IsLinked chain
    → last_addr none chain ≡ some a
    → append_item (last_addr none chain) item [] (remove_addr a chain) ≡ remove_addr a chain
unfolding append_item
append_item_lost chain item a d h =
    rw (h, append_item) (set_next_absent _ _ a (Avoids-remove_addr_self chain a d))
