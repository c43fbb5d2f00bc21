-- ===== src/Lru/Keys.antt =====
-- Keys as byte strings: LRUCacheCompareKey decides their equality, and the walk over a chain finds
-- the first item with a key.
use c_study.Base.{
  ℕ, ◌≡◌, refl, ◌≢◌, ap, [], ◌∷◌, Option, none, some, Bool, true, false, ◌&&◌, arith, ◌==◌,
  if◌then◌else◌, length, Bool-cases, inl, inr,
}
use c_study.Lru.Hash.{Bytes}
use c_study.Lru.Cache.{LruCacheItem, Chain, memcmp, compare_key, walk}

unfoldable pub bytes_eq : Bytes → Bytes → Bool
bytes_eq [] [] = true
bytes_eq (x ∷ a) (y ∷ b) = x == y && bytes_eq a b
bytes_eq _ _ = false

pub bytes_eq_refl : (a : Bytes) → bytes_eq a a ≡ true
unfolding bytes_eq
bytes_eq_refl [] = refl
bytes_eq_refl (x ∷ a) = ground (arith, bytes_eq_refl a)

pub eq_of_bytes_eq : (a b : Bytes) → bytes_eq a b ≡ true → a ≡ b
unfolding bytes_eq
eq_of_bytes_eq [] [] h = refl
eq_of_bytes_eq (x ∷ a) (y ∷ b) h = ground (arith, eq_of_bytes_eq a b)
eq_of_bytes_eq _ _ h = cc

pub bytes_eq-false : (a b : Bytes) → a ≢ b → bytes_eq a b ≡ false
bytes_eq-false a b h = elim (Bool-cases (bytes_eq a b)) [
  | inl e ↦ absurd (h (eq_of_bytes_eq a b e))
  | inr e ↦ e
]

-- The first item with the key.
unfoldable pub find_key : Bytes → Chain → Option LruCacheItem
find_key key [] = none
find_key key (item ∷ chain) = if bytes_eq key item.key then some item else find_key key chain

memcmp-bytes_eq : (a b : Bytes) → length a ≡ length b → (memcmp (length a) a b == 0) ≡ bytes_eq a b
unfolding memcmp bytes_eq
memcmp-bytes_eq [] [] h = refl
memcmp-bytes_eq (x ∷ a) (y ∷ b) h = ground (arith, memcmp-bytes_eq a b)
memcmp-bytes_eq [] (y ∷ b) h = absurd (omega arith)
memcmp-bytes_eq (x ∷ a) [] h = absurd (omega arith)

length-bytes_eq : (a b : Bytes) → length a ≢ length b → bytes_eq a b ≡ false
length-bytes_eq a b h = bytes_eq-false a b (λ e. h (ap length e))

pub compare_key_iff :
    (item : LruCacheItem) (key : Bytes) → (compare_key item key == 0) ≡ bytes_eq key item.key
unfolding compare_key
compare_key_iff item key =
    ground (arith, memcmp-bytes_eq key item.key, length-bytes_eq key item.key)

pub walk-find_key :
    (chain : Chain) (key : Bytes) (prev : Option ℕ) → (walk chain key prev).1 ≡ find_key key chain
unfolding walk find_key
walk-find_key [] key prev = refl
walk-find_key (item ∷ chain) key prev =
    ground (arith, compare_key_iff item key, walk-find_key chain key (some item.addr))
