-- ===== src/Filters/Escape.antt =====
-- section06/cat3.c: tabs and ends of lines made visible.
use c_study.Base.{
  ℕ, suc, ◌+◌, ◌≡◌, refl, ◌≢◌, [], ◌∷◌, arith, length, ◌==◌, if◌then◌else◌, All, ◌&&◌,
}
use c_study.Filters.Input.{Bytes, newline, newlines}

abbrev pub tab : ℕ
tab = 9

abbrev pub backslash : ℕ
backslash = 92

-- do_cat of cat3.c
unfoldable pub escape : Bytes → Bytes
escape [] = []
escape (c ∷ s) =
    let rest = escape s in
    if c == tab
    then backslash ∷ b't' ∷ rest
    else (if c == newline then b'$' ∷ newline ∷ rest else c ∷ rest)

-- Reading the output back.
unfoldable pub unescape : Bytes → Bytes
unescape [] = []
unescape (c ∷ []) = c ∷ []
unescape (c ∷ d ∷ s) =
    let two = unescape s in
    let one = unescape (d ∷ s) in
    if c == backslash && d == b't'
    then tab ∷ two
    else (if c == b'$' && d == newline then newline ∷ two else c ∷ one)

-- Neither of the bytes with which an escape begins.
abbrev pub IsPlain : ℕ → Type 0
IsPlain c = (c ≢ backslash) × (c ≢ b'$')

unescape-plain : (c : ℕ) (s : Bytes) → IsPlain c → unescape (c ∷ s) ≡ c ∷ unescape s
unfolding unescape
unescape-plain c [] h = refl
unescape-plain c (d ∷ s) h = ground arith

unescape-nil : unescape [] ≡ []
unfolding unescape
unescape-nil = refl

unescape-tab : (s : Bytes) → unescape (backslash ∷ b't' ∷ s) ≡ tab ∷ unescape s
unfolding unescape
unescape-tab s = refl

unescape-newline : (s : Bytes) → unescape (b'$' ∷ newline ∷ s) ≡ newline ∷ unescape s
unfolding unescape
unescape-newline s = refl

-- For a text with no backslash and no dollar sign, what cat3 writes can be read back.
pub unescape-escape : (s : Bytes) → All IsPlain s → unescape (escape s) ≡ s
unfolding escape
unescape-escape [] h = unescape-nil
unescape-escape (c ∷ s) h =
    let ih = unescape-escape s h.1 in
    ground (
      arith,
      unescape-plain c (escape s) h.0,
      unescape-tab (escape s),
      unescape-newline (escape s),
      ih,
    )

-- The bytes that are escaped.
unfoldable pub specials : Bytes → ℕ
specials [] = 0
specials (c ∷ s) =
    if c == tab then suc (specials s) else (if c == newline then suc (specials s) else specials s)

-- cat3 writes one byte more for each tab and each newline, and as many newlines as it reads.
escape-specials :
    (s : Bytes) → (length (escape s) ≡ length s + specials s) × (newlines (escape s) ≡ newlines s)
unfolding escape specials newlines
escape-specials [] = (refl, refl)
escape-specials (c ∷ s) = ground (arith, escape-specials s)
