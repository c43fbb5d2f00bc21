-- ===== src/Shell/Line.antt =====
-- simple_shell01/shell.c, lsh_read_line. The standard input is the list of its bytes, after which
-- `getchar` gives EOF. A write outside of the buffer is `none`; allocations are taken to succeed.
use mathlib.Core.List.{append-nil, append_assoc}
use c_study.Base.{
  ℕ, ◌+◌, ◌*◌, ◌/◌, ◌%◌, ◌^◌, ◌<◌, ◌≡◌, ◌∙◌, ap, List, [], ◌∷◌, ◌++◌, Option, none, some, arith,
  length, ltb, leb, ◌==◌, if◌then◌else◌,
}

abbrev pub Text : Type 0
Text = List ℕ

abbrev line_end : ℕ
line_end = 10

abbrev pub line_buf_size : ℕ
line_buf_size = 256

-- What lsh_read_line returns, the size of its buffer, and the input that is left.
pub record Line : Type 0 where
  pub buffer : Text
  pub buf_size : ℕ
  pub rest : Text

-- `if (pos >= buf_size) buf_size += chunk`, in size_t
unfoldable pub grown : ℕ → ℕ → ℕ → ℕ
grown chunk pos buf_size = if leb buf_size pos then (buf_size + chunk) % 2 ^ 64 else buf_size

-- `buffer[pos] = '\0'; return buffer;`
unfoldable terminated : Text → ℕ → ℕ → Text → Option Line
terminated buffer pos buf_size rest =
    if ltb pos buf_size
    then some (record { buffer = buffer; buf_size = buf_size; rest = rest })
    else none

unfoldable pub line_loop : Text → Text → ℕ → ℕ → Option Line
unfolding terminated
line_loop [] buffer pos buf_size = terminated buffer pos buf_size []
line_loop (c ∷ s) buffer pos buf_size =
    let more = line_loop s (buffer ++ c ∷ []) (pos + 1) (grown line_buf_size (pos + 1) buf_size) in
    if c == line_end
    then terminated buffer pos buf_size s
    else (if ltb pos buf_size then more else none)

unfoldable pub lsh_read_line : Text → Option Line
unfolding line_loop
lsh_read_line s = line_loop s [] 0 line_buf_size

-- The first line without its newline, and what follows it.
unfoldable pub first_line : Text → Text
first_line [] = []
first_line (c ∷ s) = if c == line_end then [] else c ∷ first_line s

unfoldable pub after_line : Text → Text
after_line [] = []
after_line (c ∷ s) = if c == line_end then s else after_line s

-- The size of an array that grows by `chunk` when `n` elements are in it.
abbrev pub capacity : ℕ → ℕ → ℕ
capacity chunk n = chunk * (n / chunk + 1)

abbrev read_as : Text → ℕ → Text → Option Line
read_as buffer n rest =
    some (record { buffer = buffer; buf_size = capacity line_buf_size n; rest = rest })

grown-line :
    (n : ℕ)
    → n + 512 < 2 ^ 64
    → grown line_buf_size (n + 1) (capacity line_buf_size n) ≡ capacity line_buf_size (n + 1)
unfolding grown
grown-line n h = ground arith

terminated_in :
    (buffer : Text) (n : ℕ) (rest : Text)
    → terminated buffer n (capacity line_buf_size n) rest ≡ read_as buffer n rest
unfolding terminated
terminated_in buffer n rest = ground arith

line_loop-line :
    (s buffer : Text) (n : ℕ)
    → n + length s + 512 < 2 ^ 64
    → line_loop s buffer n (capacity line_buf_size n)
      ≡ read_as (buffer ++ first_line s) (n + length (first_line s)) (after_line s)
unfolding line_loop first_line after_line
line_loop-line [] buffer n h = ground (arith, append-nil buffer, terminated_in buffer n [])
line_loop-line (c ∷ s) buffer n h = ground (
  arith,
  append-nil buffer,
  terminated_in buffer n s,
  append_assoc buffer (c ∷ []) (first_line s),
  grown-line n,
  line_loop-line s (buffer ++ c ∷ []) (n + 1),
)

-- On an input of up to 2^64 - 513 bytes lsh_read_line never writes outside of its buffer. It returns the
-- first line without its newline, or all of the input if there is none, in a buffer of the least
-- multiple of 256 bytes that has room for it and a zero byte, and leaves the bytes behind the newline.
pub lsh_read_line_lem :
    (s : Text)
    → length s + 512 < 2 ^ 64
    → lsh_read_line s
      ≡ some (record {
        buffer = first_line s;
        buf_size = 256 * (length (first_line s) / 256 + 1);
        rest = after_line s;
      })
unfolding lsh_read_line
lsh_read_line_lem s h =
    line_loop-line s [] 0 (omega arith)
    ∙ ap (λ n. read_as (first_line s) n (after_line s)) (omega arith)
