-- ===== src/Lru/Hash.antt =====
-- lru_cache01/lru_cache.c, LRUCacheGetHashIndex: MurmurHash2 of a key, reduced to a bucket index.
-- A key is the list of the bytes of a C string, without the final zero byte. The words are
-- uint32_t, kept as numbers below 2 ^ 32; `char` is signed and memory is little-endian, as on
-- the machines that the program is built for.
use Prim.Native.Nat.{bit_xor}
use native.Mathlib.Nat.{mod-lt}
use c_study.Base.{
  ℕ, ◌+◌, ◌-◌, ◌*◌, ◌/◌, ◌%◌, ◌^◌, ◌<◌, ◌≡◌, List, [], ◌∷◌, Option, none, some, arith, ltb, ◌==◌,
  if◌then◌else◌, length,
}

abbrev pub Bytes : Type 0
Bytes = List ℕ

abbrev pub u32 : ℕ → ℕ
u32 n = n % 2 ^ 32

abbrev m : ℕ
m = 0x5bd1e995

-- `*(uint32_t *)data`
load32 : ℕ → ℕ → ℕ → ℕ → ℕ
load32 b0 b1 b2 b3 = u32 (b0 + b1 * 2 ^ 8 + b2 * 2 ^ 16 + b3 * 2 ^ 24)

-- A `char` converted to a 32-bit word: the sign bit of the byte is copied upwards.
sign_extend : ℕ → ℕ
sign_extend b = if ltb b 128 then b else u32 (b + 2 ^ 32 - 256)

-- One round of the `while (key_len >= 4)` loop.
mix_word : ℕ → ℕ → ℕ
mix_word h word =
    let k = u32 (word * m) in let k' = u32 (bit_xor k (k / 2 ^ 24) * m) in bit_xor (u32 (h * m)) k'

-- The `switch (key_len)` with its fallthrough; the key has fewer than four bytes left.
mix_tail : ℕ → Bytes → ℕ
mix_tail h (b0 ∷ b1 ∷ b2 ∷ []) =
    let h' = bit_xor h (u32 (sign_extend b2 * 2 ^ 16)) in
    let h'' = bit_xor h' (u32 (sign_extend b1 * 2 ^ 8)) in u32 (bit_xor h'' (sign_extend b0) * m)
mix_tail h (b0 ∷ b1 ∷ []) =
    let h' = bit_xor h (u32 (sign_extend b1 * 2 ^ 8)) in u32 (bit_xor h' (sign_extend b0) * m)
mix_tail h (b0 ∷ []) = u32 (bit_xor h (sign_extend b0) * m)
mix_tail h _ = h

mix_key : ℕ → Bytes → ℕ
mix_key h (b0 ∷ b1 ∷ b2 ∷ b3 ∷ rest) = mix_key (mix_word h (load32 b0 b1 b2 b3)) rest
mix_key h rest = mix_tail h rest

finish : ℕ → ℕ
finish h = let h' = bit_xor h (h / 2 ^ 13) in let h'' = u32 (h' * m) in bit_xor h'' (h'' / 2 ^ 16)

-- `uint32_t h = cache->seed ^ key_len` cuts the xor to 32 bits.
unfoldable pub murmur : ℕ → Bytes → ℕ
unfolding load32 sign_extend mix_word mix_tail mix_key finish
murmur seed key = finish (mix_key (u32 (bit_xor seed (length key))) key)

-- `h % cache->hash_table_size`; `none` is the trap of a division by zero.
unfoldable pub hash_index : ℕ → ℕ → Bytes → Option ℕ
hash_index seed size key = if size == 0 then none else some (murmur seed key % size)

pub hash_index-lt :
    (seed size : ℕ) (key : Bytes) (i : ℕ) → hash_index seed size key ≡ some i → i < size
unfolding hash_index
hash_index-lt seed size key i h = ground (arith, mod-lt (murmur seed key) {m = size})

pub hash_index_total :
    (seed size : ℕ) (key : Bytes)
    → 0 < size
    → hash_index seed size key ≡ some (murmur seed key % size)
unfolding hash_index
hash_index_total seed size key h = ground arith
