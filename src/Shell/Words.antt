-- ===== src/Shell/Words.antt =====
-- simple_shell01/shell.c: the words of a line that lsh_split_line returns, written out and read back.
use c_study.Base.{
  ℕ, ◌+◌, ◌*◌, ◌/◌, ◌^◌, ◌<◌, ◌≡◌, refl, ◌∙◌, ap, List, [], ◌∷◌, ◌++◌, true, false, some, arith,
  length, All,
}
use c_study.Shell.Line.{Text}
use c_study.Shell.Tokens.{
  is_delimiter, starts, attach, words, attach-false, attach-true, lsh_split_line,
  lsh_split_line-words,
}

-- A word has a byte, and no byte of it is a delimiter.
abbrev pub IsWord : Text → Type 0
IsWord [] = ⊥
IsWord (c ∷ w) = (is_delimiter c ≡ false) × All (λ d. is_delimiter d ≡ false) w

-- The words with a space behind each.
unfoldable pub joined : List Text → Text
joined [] = []
joined (w ∷ ws) = w ++ 32 ∷ joined ws

words-space : (s : Text) → words (32 ∷ s) ≡ words s
unfolding words is_delimiter
words-space s = refl

space : is_delimiter 32 ≡ true
unfolding is_delimiter
space = refl

words-word : (c : ℕ) (w s : Text) → IsWord (c ∷ w) → words ((c ∷ w) ++ 32 ∷ s) ≡ (c ∷ w) ∷ words s
unfolding words starts attach
words-word c [] s h = ground (arith, attach-false c (words s), space)
words-word c (d ∷ w) s h = ground (arith, attach-true c (d ∷ w) (words s), words-word d w s h.1)

pub words-joined : (ws : List Text) → All IsWord ws → words (joined ws) ≡ ws
unfolding joined words
words-joined [] h = refl
words-joined ((c ∷ w) ∷ ws) h =
    words-word c w (joined ws) h.0 ∙ ap (λ vs. (c ∷ w) ∷ vs) (words-joined ws h.1)
words-joined ([] ∷ ws) h = absurd h.0

-- Words that are written with a space behind each, in fewer than 2^64 - 256 bytes, are the arguments
-- that lsh_split_line returns.
lsh_split_line-joined :
    (ws : List Text)
    → All IsWord ws
    → length (joined ws) + 256 < 2 ^ 64
    → lsh_split_line (joined ws)
      ≡ some (record { args = ws; buf_size = 128 * (length ws / 128 + 1) })
lsh_split_line-joined ws h n = rw (words-joined ws h) at (lsh_split_line-words (joined ws) n)
