-- ===== src/Filters/Blocks.antt =====
-- section06/cat4.c: copying a file by `fread` and `fwrite` in blocks of 1024 bytes.
use mathlib.Core.List.{append-nil, append_assoc}
use native.Mathlib.Nat.{mod-eq_of_lt, mod-eq-sub-mod}
use native.Mathlib.Decide.{dec_lt, ℕ_discrete}
use c_study.Base.{
  ℕ, zero, suc, ◌-◌, ◌%◌, ◌≤◌, ◌<◌, ◌≡◌, refl, sym, ap, ◌∙◌, [], ◌∷◌, ◌++◌, true, false, Option,
  none, some, arith, length, length-take, take, take_all, drop, ltb, ◌==◌, if◌then◌else◌,
}
use c_study.Filters.Input.{Bytes}
use c_study.Filters.Cat.{Copied}

abbrev pub block : ℕ
block = 1024

-- The loop of `main` over the rest of one file, on fuel, with blocks of `size` bytes. `fread` gives the
-- next block, shorter only at the end of the file, and only then `feof` holds. `fwrite` writes it all
-- and returns its length.
unfoldable pub cat4_loop : ℕ → ℕ → Bytes → Bytes → Option Copied
cat4_loop size zero s out = none
cat4_loop size (suc fuel) s out =
    let buf = take size s in
    let rest = cat4_loop size fuel (drop size s) (out ++ buf) in
    if length buf == 0
    then some (record { out = out; exited = true })
    else (if ltb (length buf) size
        then some (record { out = out ++ buf; exited = false })
        else rest)

-- The copy of one file.
unfoldable pub cat4 : ℕ → Bytes → Option Copied
cat4 fuel s = cat4_loop block fuel s []

take-drop : (n : ℕ) (s : Bytes) → take n s ++ drop n s ≡ s
take-drop zero s = refl
take-drop (suc n) [] = refl
take-drop (suc n) (c ∷ s) = ap (◌∷◌ c) (take-drop n s)

length-drop : (n : ℕ) (s : Bytes) → length (drop n s) ≡ length s - n
length-drop zero s = omega arith
length-drop (suc n) [] = omega arith
length-drop (suc n) (c ∷ s) = omega (arith, length-drop n s)

nil_of_length : (s : Bytes) → length s ≡ 0 → s ≡ []
nil_of_length [] h = refl
nil_of_length (c ∷ s) h = absurd (omega arith)

module _ (size fuel : ℕ) (s out : Bytes) where
  cat4_loop_none :
      length (take size s) ≡ 0
      → cat4_loop size (suc fuel) s out ≡ some (record { out = out; exited = true })
  unfolding cat4_loop
  cat4_loop_none h = ground arith

  cat4_loop_last :
      0 < length (take size s)
      → length (take size s) < size
      → cat4_loop size (suc fuel) s out ≡ some (record { out = out ++ take size s; exited = false })
  unfolding cat4_loop
  cat4_loop_last h k = ground arith

  cat4_loop_more :
      0 < size
      → size ≤ length (take size s)
      → cat4_loop size (suc fuel) s out ≡ cat4_loop size fuel (drop size s) (out ++ take size s)
  unfolding cat4_loop
  cat4_loop_more p h = ground arith

-- What the loop ends with.
abbrev copied : ℕ → Bytes → Bytes → Option Copied
copied size s out = some (record { out = out ++ s; exited = length s % size == 0 })

copied_empty :
    (size : ℕ) (s out : Bytes)
    → length s ≡ 0
    → some (record { out = out; exited = true }) ≡ copied size s out
copied_empty size s out e =
    rw (nil_of_length s e, append-nil out) (let z : 0 % size ≡ 0 = grind arith in ground arith)

copied_last :
    (size : ℕ) (s out : Bytes)
    → 0 < length s
    → length s < size
    → some (record { out = out ++ take size s; exited = false }) ≡ copied size s out
copied_last size s out h k =
    let e : length s % size ≡ length s = mod-eq_of_lt k in
    rw (take_all s size (omega arith)) (ground arith)

copied_more :
    (size : ℕ) (s out : Bytes)
    → 0 < size
    → size ≤ length s
    → copied size (drop size s) (out ++ take size s) ≡ copied size s out
copied_more size s out h k =
    let e : length (drop size s) % size ≡ length s % size =
      ap (λ n. n % size) (length-drop size s) ∙ sym (mod-eq-sub-mod k) in
    rw (append_assoc out (take size s) (drop size s), take-drop size s, e)

-- With fuel above the length, the loop ends.
cat4_loop-copied :
    (size fuel : ℕ) (s out : Bytes)
    → 0 < size
    → length s < fuel
    → cat4_loop size fuel s out ≡ copied size s out
cat4_loop-copied size zero s out p h = absurd (omega arith)
cat4_loop-copied size (suc fuel) s out p h = elim (dec_lt (length s) size) [
  | yes small ↦ elim (ℕ_discrete (length s) 0) [
    | yes empty ↦
        cat4_loop_none size fuel s out (omega (arith, length-take size s))
        ∙ copied_empty size s out empty
    | no some_byte ↦
        cat4_loop_last size fuel s out (omega (arith, length-take size s))
          (omega (arith, length-take size s))
        ∙ copied_last size s out (omega arith) small
  ]
  | no large ↦
      cat4_loop_more size fuel s out p (omega (arith, length-take size s))
      ∙ cat4_loop-copied size fuel (drop size s) (out ++ take size s) p
          (omega (arith, length-drop size s))
      ∙ copied_more size s out p (omega arith)
]

-- cat4.c, with fuel above the length of the file, writes the whole file; but it reports a failed fwrite
-- and exits with 1 exactly if the length is a multiple of 1024, as it is for an empty file.
cat4_lem :
    (fuel : ℕ) (s : Bytes)
    → length s < fuel
    → cat4 fuel s ≡ some (record { out = s; exited = length s % block == 0 })
unfolding cat4
cat4_lem fuel s h = cat4_loop-copied block fuel s [] (omega arith) h
