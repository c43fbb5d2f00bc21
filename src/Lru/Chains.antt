-- ===== src/Lru/Chains.antt =====
-- What is true of every chain of the table, and that the writes of lru_cache.c keep it.
use c_study.Base.{
  ℕ, ◌+◌, ◌%◌, ◌≤◌, ◌<◌, ◌≡◌, refl, sym, [], ◌∷◌, ◌++◌, Option, none, some, arith, All, All-map,
  All-append, length, inl, inr,
}
use c_study.Lru.Hash.{Bytes, murmur}
use c_study.Lru.Cache.{LruCacheItem, Chain, store}
use c_study.Lru.Keys.{find_key}
use c_study.Lru.Links.{Avoids, IsLinked, At, remove_addr}
use c_study.Lru.Unlink.{IsLinked-remove_addr}
use c_study.Lru.Find.{AvoidsKey, IsKeyed, AvoidsKey-of_find}

-- The chain of bucket `i`: addresses and keys are distinct, every item hashes to `i`, is older than
-- the clock, and was allocated before.
pub record IsChain (seed size age brk i : ℕ) (chain : Chain) : Type 0 where
  pub linked : IsLinked chain
  pub keyed : IsKeyed chain
  pub placed : All (λ x. murmur seed x.key % size ≡ i) chain
  pub aged : All (λ x. x.age < age) chain
  pub fresh : All (λ x. x.addr < brk) chain

pub IsChain-nil : (seed size age brk i : ℕ) → IsChain seed size age brk i []
IsChain-nil seed size age brk i = record {
  linked = tt;
  keyed = tt;
  placed = tt;
  aged = tt;
  fresh = tt;
}

All-remove_addr :
    (P : LruCacheItem → Type 0) (chain : Chain) (a : ℕ) → All P chain → All P (remove_addr a chain)
unfolding remove_addr
All-remove_addr P [] a h = tt
All-remove_addr P (x ∷ chain) a h = ground (arith, All-remove_addr P chain a h.1)

AvoidsKey-remove_addr :
    (chain : Chain) (key : Bytes) (a : ℕ)
    → AvoidsKey key chain
    → AvoidsKey key (remove_addr a chain)
unfolding remove_addr
AvoidsKey-remove_addr [] key a h = tt
AvoidsKey-remove_addr (x ∷ chain) key a h = ground (arith, AvoidsKey-remove_addr chain key a h.1)

IsKeyed-remove_addr : (chain : Chain) (a : ℕ) → IsKeyed chain → IsKeyed (remove_addr a chain)
unfolding remove_addr
IsKeyed-remove_addr [] a h = tt
IsKeyed-remove_addr (x ∷ chain) a h =
    ground (arith, IsKeyed-remove_addr chain a h.1, AvoidsKey-remove_addr chain x.key a h.0)

pub length-remove_addr :
    (chain : Chain) (item : LruCacheItem) (q prev : Option ℕ)
    → At item q prev chain
    → length (remove_addr item.addr chain) + 1 ≡ length chain
unfolding remove_addr
length-remove_addr [] item q prev h = absurd h
length-remove_addr (x ∷ chain) item q prev (inl h) = ground arith
length-remove_addr (x ∷ chain) item q prev (inr h) =
    ground (arith, length-remove_addr chain item (some x.addr) prev h)

Avoids-append :
    (chain : Chain) (item : LruCacheItem) (a : ℕ)
    → Avoids a chain
    → Avoids a (item ∷ [])
    → Avoids a (chain ++ item ∷ [])
Avoids-append [] item a h k = k
Avoids-append (x ∷ chain) item a h k = (h.0, Avoids-append chain item a h.1 k)

IsLinked-append :
    (chain : Chain) (item : LruCacheItem)
    → IsLinked chain
    → All (λ x. x.addr < item.addr) chain
    → IsLinked (chain ++ item ∷ [])
IsLinked-append [] item h k = (tt, tt)
IsLinked-append (x ∷ chain) item h k =
    (Avoids-append chain item x.addr h.0 (omega arith), IsLinked-append chain item h.1 k.1)

AvoidsKey-append :
    (chain : Chain) (item : LruCacheItem) (key : Bytes)
    → AvoidsKey key chain
    → AvoidsKey key (item ∷ [])
    → AvoidsKey key (chain ++ item ∷ [])
AvoidsKey-append [] item key h k = k
AvoidsKey-append (x ∷ chain) item key h k = (h.0, AvoidsKey-append chain item key h.1 k)

IsKeyed-append :
    (chain : Chain) (item : LruCacheItem)
    → IsKeyed chain
    → AvoidsKey item.key chain
    → IsKeyed (chain ++ item ∷ [])
IsKeyed-append [] item h k = (tt, tt)
IsKeyed-append (x ∷ chain) item h k = (
  AvoidsKey-append chain item x.key h.0 (λ e. k.0 (sym e), tt),
  IsKeyed-append chain item h.1 k.1,
)

module _ (seed size age brk i : ℕ) (chain : Chain) (v : IsChain seed size age brk i chain) where
  pub IsChain-remove_addr : (a : ℕ) → IsChain seed size age brk i (remove_addr a chain)
  IsChain-remove_addr a = record {
    linked = IsLinked-remove_addr chain a v.linked;
    keyed = IsKeyed-remove_addr chain a v.keyed;
    placed = All-remove_addr _ chain a v.placed;
    aged = All-remove_addr _ chain a v.aged;
    fresh = All-remove_addr _ chain a v.fresh;
  }

  pub IsChain-later :
      (age' brk' : ℕ) → age ≤ age' → brk ≤ brk' → IsChain seed size age' brk' i chain
  IsChain-later age' brk' h k = record {
    linked = v.linked;
    keyed = v.keyed;
    placed = v.placed;
    aged = All-map _ _ (λ x p. omega arith) chain v.aged;
    fresh = All-map _ _ (λ x p. omega arith) chain v.fresh;
  }

  -- A new item, allocated last and stamped with the clock, at the end of the chain.
  pub IsChain-append :
      (item : LruCacheItem)
      → find_key item.key chain ≡ none
      → murmur seed item.key % size ≡ i
      → item.age ≡ age
      → item.addr ≡ brk
      → IsChain seed size (age + 1) (brk + 1) i (chain ++ item ∷ [])
  IsChain-append item absent here stamp new = record {
    linked = IsLinked-append chain item v.linked (All-map _ _ (λ x p. omega arith) chain v.fresh);
    keyed = IsKeyed-append chain item v.keyed (AvoidsKey-of_find chain item.key absent);
    placed = All-append _ here chain v.placed;
    aged = All-append _ (omega arith) chain (All-map _ _ (λ x p. omega arith) chain v.aged);
    fresh = All-append _ (omega arith) chain (All-map _ _ (λ x p. omega arith) chain v.fresh);
  }

-- A write through `p` that leaves address and key alone.
module _ (f : LruCacheItem → LruCacheItem) (p : ℕ)
    (f-addr : (i : LruCacheItem) → (f i).addr ≡ i.addr)
    (f-key : (i : LruCacheItem) → (f i).key ≡ i.key) where
  pub length-store : (chain : Chain) → length (store p f chain) ≡ length chain
  unfolding store
  length-store [] = refl
  length-store (x ∷ chain) = ground (arith, length-store chain)

  All-store :
      (P : LruCacheItem → Type 0)
      → ((x : LruCacheItem) → P x → P (f x))
      → (chain : Chain) → All P chain
      → All P (store p f chain)
  unfolding store
  All-store P g [] h = tt
  All-store P g (x ∷ chain) h = ground (arith, g x h.0, All-store P g chain h.1)

  Avoids-store : (chain : Chain) (a : ℕ) → Avoids a chain → Avoids a (store p f chain)
  unfolding store
  Avoids-store [] a h = tt
  Avoids-store (x ∷ chain) a h = ground (arith, f-addr x, Avoids-store chain a h.1)

  IsLinked-store : (chain : Chain) → IsLinked chain → IsLinked (store p f chain)
  unfolding store
  IsLinked-store [] h = tt
  IsLinked-store (x ∷ chain) h =
      ground (arith, f-addr x, IsLinked-store chain h.1, Avoids-store chain x.addr h.0)

  AvoidsKey-store :
      (chain : Chain) (key : Bytes) → AvoidsKey key chain → AvoidsKey key (store p f chain)
  unfolding store
  AvoidsKey-store [] key h = tt
  AvoidsKey-store (x ∷ chain) key h = ground (arith, f-key x, AvoidsKey-store chain key h.1)

  IsKeyed-store : (chain : Chain) → IsKeyed chain → IsKeyed (store p f chain)
  unfolding store
  IsKeyed-store [] h = tt
  IsKeyed-store (x ∷ chain) h =
      ground (arith, f-key x, IsKeyed-store chain h.1, AvoidsKey-store chain x.key h.0)

  pub IsChain-store :
      (seed size age brk i : ℕ) (chain : Chain)
      → ((x : LruCacheItem) → (f x).age < age + 1)
      → IsChain seed size age brk i chain
      → IsChain seed size (age + 1) brk i (store p f chain)
  IsChain-store seed size age brk i chain g v = record {
    linked = IsLinked-store chain v.linked;
    keyed = IsKeyed-store chain v.keyed;
    placed = All-store _ (λ x e. rw (f-key x) e) chain v.placed;
    aged = All-store _ (λ x _. g x) chain (All-map _ _ (λ x p. omega arith) chain v.aged);
    fresh = All-store _ (λ x e. rw (f-addr x) e) chain v.fresh;
  }
