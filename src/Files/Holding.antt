-- ===== src/Files/Holding.antt =====
-- The buffer of a path that dir_walk keeps, and what its writes make of it.
use mathlib.Core.List.{append_assoc, append-nil}
use c_study.Base.{
  ℕ, ◌+◌, ◌-◌, ◌/◌, ◌≤◌, ◌<◌, ◌≡◌, refl, sym, ap, ◌∙◌, List, [], ◌∷◌, ◌++◌, Bool, some, length,
  length-append, take, arith,
}
use c_study.Files.Walk.{PathName, Mode}
use c_study.Files.Buffer.{Buffer, load, store, Realloc, grow, close_path}

take-append : {A : Type 0} (xs ys : List A) → take (length xs) (xs ++ ys) ≡ xs
take-append [] ys = refl
take-append (x ∷ xs) ys = ap (◌∷◌ x) (take-append xs ys)

module _ (path size : ℕ) where
  -- The buffer with this text.
  abbrev pub holding : PathName → Buffer
  holding text = record { addr = path; size = size; text = text }

  pub load-holding : (text : PathName) → load path (holding text) ≡ some text
  unfolding load
  load-holding text = ground arith

  -- A text written behind `kept`.
  pub store-holding :
      (kept tail s : PathName)
      → length kept + length s < size
      → store path (length kept) s (holding (kept ++ tail)) ≡ some (holding (kept ++ s))
  unfolding store
  store-holding kept tail s h = rw (take-append kept tail) (ground arith)

module _ {A : Type 0} (realloc : Realloc) (fn : PathName → Mode → A → A) (path buf_len : ℕ)
    (large : 514 ≤ buf_len) where
  pub close_path-holding :
      (text tail : PathName) (failed done : Bool) (arg : A)
      → length text < buf_len
      → close_path path
          (length text + 1)
          failed
          (record { failed = done; buffer = holding path buf_len (text ++ tail); arg = arg })
        ≡ some (record { failed = failed; buffer = holding path buf_len text; arg = arg })
  unfolding close_path
  close_path-holding text tail failed done arg h =
      let back : length text + 1 - 1 ≡ length text = omega arith in
      rw back (
        rw (store-holding path buf_len text tail [] (omega (arith, h))) (
          ap (λ t. some (record { failed = failed; buffer = holding path buf_len t; arg = arg }))
            (append-nil text)))

  pub grow-short :
      (text : PathName)
      → length text ≤ buf_len / 2
      → grow realloc path buf_len (length text) (holding path buf_len text)
        ≡ some (record { path = path; buf_len = buf_len; buffer = holding path buf_len text })
  unfolding grow
  grow-short text h = ground arith

  pub store-slash :
      (text : PathName)
      → length text + 1 < buf_len
      → store path (length text) (b'/' ∷ []) (holding path buf_len text)
        ≡ some (holding path buf_len (text ++ b'/' ∷ []))
  store-slash text h =
      ap (λ t. store path (length text) (b'/' ∷ []) (holding path buf_len t))
        (sym (append-nil text))
      ∙ store-holding path buf_len text [] (b'/' ∷ []) h

  -- A name written behind the slash.
  pub store-name :
      (text tail name : PathName)
      → length text + 1 + length name < buf_len
      → store path (length text + 1) name (holding path buf_len (text ++ b'/' ∷ tail))
        ≡ some (holding path buf_len ((text ++ b'/' ∷ []) ++ name))
  store-name text tail name h =
      let long : length (text ++ b'/' ∷ []) ≡ length text + 1 = length-append text (b'/' ∷ []) in
      ap (λ n. store path n name (holding path buf_len (text ++ b'/' ∷ tail))) (sym long)
      ∙ ap (λ t. store path (length (text ++ b'/' ∷ [])) name (holding path buf_len t))
          (sym (append_assoc text (b'/' ∷ []) tail))
      ∙ store-holding path buf_len (text ++ b'/' ∷ []) tail name (omega (arith, h, long))
