-- ===== src/Shell/Tokens.antt =====
-- simple_shell01/shell.c, lsh_split_line, with `strtok` of the C library as documented: it skips
-- delimiters and cuts the next token off at the delimiter behind it.
use mathlib.Core.List.{append-nil, append_assoc}
use c_study.Base.{
  ℕ, zero, suc, ◌+◌, ◌*◌, ◌/◌, ◌^◌, ◌≤◌, ◌<◌, ◌≡◌, refl, sym, ◌∙◌, ap, List, [], ◌∷◌, ◌++◌, Bool,
  true, false, not, ◌||◌, Option, none, some, arith, length, length-append, ltb, ◌==◌,
  if◌then◌else◌, Bool-cases, ◌⊎◌, inl, inr,
}
use c_study.Shell.Line.{Text, grown, capacity}

-- TOKEN_DELIMITER
unfoldable pub is_delimiter : ℕ → Bool
is_delimiter c = c == 32 || c == 9 || c == 13 || c == 10 || c == 7

unfoldable pub skip : Text → Text
skip [] = []
skip (c ∷ s) = let rest = skip s in if is_delimiter c then rest else c ∷ s

unfoldable pub token_of : Text → Text
token_of [] = []
token_of (c ∷ s) = let rest = token_of s in if is_delimiter c then [] else c ∷ rest

unfoldable pub behind : Text → Text
behind [] = []
behind (c ∷ s) = let rest = behind s in if is_delimiter c then s else rest

-- What `strtok` returns, and the text where the next call goes on.
unfoldable pub strtok : Text → Option (Text × Text)
unfolding skip token_of behind
strtok s = elim (skip s) [ [] ↦ none | c ∷ t ↦ some (token_of (c ∷ t), behind (c ∷ t)) ]

abbrev pub token_buf_size : ℕ
token_buf_size = 128

-- The array of tokens that lsh_split_line returns, up to its NULL, and its size.
pub record Tokens : Type 0 where
  pub args : List Text
  pub buf_size : ℕ

-- `tokens[pos] = NULL; return tokens;`
unfoldable closed : List Text → ℕ → ℕ → Option Tokens
closed args pos buf_size =
    if ltb pos buf_size then some (record { args = args; buf_size = buf_size }) else none

-- The loop, on fuel. `none` is a write outside of the array, or fuel that ran out.
unfoldable pub split_loop : ℕ → Text → List Text → ℕ → ℕ → Option Tokens
unfolding strtok closed
split_loop zero line args pos buf_size = none
split_loop (suc fuel) line args pos buf_size = elim (strtok line) [
  | none ↦ closed args pos buf_size
  | some cut ↦
      let more =
        split_loop fuel cut.1 (args ++ cut.0 ∷ []) (pos + 1)
          (grown token_buf_size (pos + 1) buf_size) in
      if ltb pos buf_size then more else none
]

unfoldable pub lsh_split_line : Text → Option Tokens
unfolding split_loop
lsh_split_line line = split_loop (suc (length line)) line [] 0 token_buf_size

-- The words of a line, from its end: a byte that is no delimiter begins a word or extends the one behind.
unfoldable pub starts : Text → Bool
starts [] = false
starts (c ∷ s) = not (is_delimiter c)

unfoldable pub attach : ℕ → Bool → List Text → List Text
attach c joined [] = (c ∷ []) ∷ []
attach c true (w ∷ ws) = (c ∷ w) ∷ ws
attach c false (w ∷ ws) = (c ∷ []) ∷ w ∷ ws

unfoldable pub words : Text → List Text
unfolding starts attach
words [] = []
words (c ∷ s) = let rest = words s in if is_delimiter c then rest else attach c (starts s) rest

words-nil : words [] ≡ []
unfolding words
words-nil = refl

words-skip : (s : Text) → words (skip s) ≡ words s
unfolding skip words
words-skip [] = refl
words-skip (c ∷ s) = ground (arith, words-skip s)

length-skip : (s : Text) → length (skip s) ≤ length s
unfolding skip
length-skip [] = omega arith
length-skip (c ∷ s) = ground (arith, length-skip s)

length-behind : (s : Text) → length (behind s) ≤ length s
unfolding behind
length-behind [] = omega arith
length-behind (c ∷ s) = ground (arith, length-behind s)

pub attach-false : (c : ℕ) (ws : List Text) → attach c false ws ≡ (c ∷ []) ∷ ws
unfolding attach
attach-false c [] = refl
attach-false c (w ∷ ws) = refl

pub attach-true : (c : ℕ) (w : Text) (ws : List Text) → attach c true (w ∷ ws) ≡ (c ∷ w) ∷ ws
unfolding attach
attach-true c w ws = refl

-- A text that does not begin with a delimiter begins with its first word.
words-token_of :
    (c : ℕ) (s : Text)
    → is_delimiter c ≡ false
    → (words (c ∷ s) ≡ token_of (c ∷ s) ∷ words (behind (c ∷ s)))
      × (length (behind (c ∷ s)) ≤ length s)
unfolding words token_of behind starts
words-token_of c [] h = ground (arith, attach-false c [])
words-token_of c (d ∷ s) h = elim (Bool-cases (is_delimiter d)) [
  | inl t ↦ ground (arith, attach-false c (words s))
  | inr f ↦
      let (ih, le) = words-token_of d s f in
      ground (arith, ih, le, attach-true c (token_of (d ∷ s)) (words (behind (d ∷ s))))
]

skip-cases :
    (s : Text)
    → (skip s ≡ []) ⊎ ((c : ℕ) × (t : Text) × (skip s ≡ c ∷ t) × (is_delimiter c ≡ false))
unfolding skip
skip-cases [] = inl refl
skip-cases (c ∷ s) = elim (Bool-cases (is_delimiter c)) [
  | inl t ↦ rw (t, skip) (skip-cases s)
  | inr f ↦ inr (c, s, ground arith, f)
]

strtok-none : (s : Text) → skip s ≡ [] → strtok s ≡ none
unfolding strtok
strtok-none s e = rw (e, strtok) refl

strtok-some :
    (s : Text) (c : ℕ) (t : Text)
    → skip s ≡ c ∷ t
    → strtok s ≡ some (token_of (c ∷ t), behind (c ∷ t))
unfolding strtok
strtok-some s c t e = rw (e, strtok) refl

-- A call of `strtok` takes the first word.
strtok-words :
    (s : Text)
    → ((strtok s ≡ none) × (words s ≡ []))
      ⊎ ((w : Text) × (rest : Text) × (strtok s ≡ some (w, rest))
          × (words s ≡ w ∷ words rest)
          × (length rest < length s))
strtok-words s = elim (skip-cases s) [
  | inl e ↦ inl (strtok-none s e, sym (words-skip s) ∙ ap words e ∙ words-nil)
  | inr (c, t, e, f) ↦
      let (first, le) = words-token_of c t f in
      let n : length (skip s) ≡ suc (length t) = ap length e in
      inr (
        token_of (c ∷ t),
        behind (c ∷ t),
        strtok-some s c t e,
        sym (words-skip s) ∙ ap words e ∙ first,
        omega (arith, length-skip s, n, le),
      )
]

abbrev split_as : List Text → Option Tokens
split_as args = some (record { args = args; buf_size = capacity token_buf_size (length args) })

closed_in :
    (args : List Text)
    → closed args (length args) (capacity token_buf_size (length args)) ≡ split_as args
unfolding closed
closed_in args = ground arith

grown-token :
    (n : ℕ)
    → n + 256 < 2 ^ 64
    → grown token_buf_size (n + 1) (capacity token_buf_size n) ≡ capacity token_buf_size (n + 1)
unfolding grown
grown-token n h = ground arith

module _ (fuel : ℕ) (s : Text) (args : List Text) (pos buf_size : ℕ) where
  split_loop-none :
      strtok s ≡ none → split_loop (suc fuel) s args pos buf_size ≡ closed args pos buf_size
  unfolding split_loop
  split_loop-none e = rw (e, split_loop) refl

  split_loop-some :
      (w rest : Text)
      → strtok s ≡ some (w, rest)
      → pos < buf_size
      → split_loop (suc fuel) s args pos buf_size
        ≡ split_loop fuel rest (args ++ w ∷ []) (pos + 1) (grown token_buf_size (pos + 1) buf_size)
  unfolding split_loop
  split_loop-some w rest e h = rw (e, split_loop) (ground arith)

split_loop-words :
    (fuel : ℕ) (s : Text) (args : List Text)
    → length s < fuel
    → length args + length s + 256 < 2 ^ 64
    → split_loop fuel s args (length args) (capacity token_buf_size (length args))
      ≡ split_as (args ++ words s)
split_loop-words zero s args p h = absurd (omega arith)
split_loop-words (suc fuel) s args p h = elim (strtok-words s) [
  | inl (e, no_word) ↦
      split_loop-none fuel s args _ _ e
      ∙ closed_in args
      ∙ ap split_as (rw no_word (sym (append-nil args)))
  | inr (w, rest, e, first, less) ↦
      let n = length-append args (w ∷ []) in
      split_loop-some fuel s args _ _ w rest e (omega arith)
      ∙ rw (grown-token (length args) (omega arith)) (
          ap (λ k. split_loop fuel rest (args ++ w ∷ []) k (capacity token_buf_size k))
            (omega (arith, n)))
      ∙ split_loop-words fuel rest (args ++ w ∷ []) (omega arith) (omega (arith, n))
      ∙ ap split_as (append_assoc args (w ∷ []) (words rest) ∙ ap (λ ws. args ++ ws) (sym first))
]

-- For every line of fewer than 2^64 - 256 bytes lsh_split_line ends without a write outside of its array.
-- It returns the words of the line, in their order, in an array of the least multiple of 128 entries
-- that has room for them and the NULL.
pub lsh_split_line-words :
    (line : Text)
    → length line + 256 < 2 ^ 64
    → lsh_split_line line
      ≡ some (record { args = words line; buf_size = 128 * (length (words line) / 128 + 1) })
unfolding lsh_split_line
lsh_split_line-words line h =
    split_loop-words (suc (length line)) line [] (omega arith) (omega arith)
