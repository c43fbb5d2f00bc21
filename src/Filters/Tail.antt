-- ===== src/Filters/Tail.antt =====
-- section07/tail1.c: the last lines of a file, in a ring of ten buffers of 4096 bytes.
use c_study.Base.{
  ℕ, zero, suc, ◌+◌, ◌%◌, ◌^◌, [], ◌∷◌, ◌++◌, Option, none, some, length, ltb, ◌==◌, if◌then◌else◌,
  ◌>>=◌,
}
use c_study.Filters.Input.{Bytes, newline}

-- What `printf("%s", lines[j])` gives for each buffer. A write changes what the buffer of that index
-- gives when its zero byte has been written.
abbrev pub Lines : Type 0
Lines = ℕ → Bytes

abbrev pub put : Lines → ℕ → Bytes → Lines
put lines index text j = if index == j then text else lines j

-- The variables of the loop. `text` is what stands in `lines[index]` before `pos`.
pub record Reading : Type 0 where
  pub lines : Lines
  pub index : ℕ
  pub text : Bytes
  pub line : ℕ

abbrev pub buf_size : ℕ
buf_size = 4096

-- What `printf` reads of a text, up to its first zero byte.
unfoldable pub c_text : Bytes → Bytes
c_text [] = []
c_text (zero ∷ s) = []
c_text (suc c ∷ s) = suc c ∷ c_text s

-- `lines[index][pos] = '\0'`, with `none` for a write behind the buffer.
unfoldable pub terminate : Lines → ℕ → Bytes → Option Lines
unfolding c_text
terminate lines index text =
    if ltb (length text) buf_size then some (put lines index (c_text text)) else none

-- The body of the loop; `none` is also an overflow of the int `line`.
unfoldable pub put_byte : Reading → ℕ → Option Reading
unfolding terminate
put_byte r c =
    let text = r.text ++ c ∷ [] in
    let counted = (do
      lines ← terminate r.lines r.index text
      some (record { lines = lines; index = (r.index + 1) % 10; text = []; line = r.line + 1 })) in
    let ended = if ltb (r.line + 1) (2 ^ 31) then counted else none in
    if ltb (length r.text) buf_size
    then (if c == newline then ended else some (record r { text = text }))
    else none

unfoldable pub read_all : Bytes → Reading → Option Reading
unfolding put_byte
read_all [] r = some r
read_all (c ∷ s) r = do r' ← put_byte r c; read_all s r'

-- The loop over the ten buffers, of which `rounds` are left.
unfoldable pub print_lines : ℕ → Lines → ℕ → Bytes
print_lines zero lines i = []
print_lines (suc rounds) lines i = lines (i % 10) ++ print_lines rounds lines (i + 1)

-- What the program prints of a file; `garbage` is what the buffers give before anything is written to
-- them.
unfoldable pub tail1 : Lines → Bytes → Option Bytes
unfolding read_all terminate print_lines
tail1 garbage s = do
  r ← read_all s (record { lines = garbage; index = 0; text = []; line = 0 })
  lines ← terminate r.lines r.index r.text
  some (print_lines 10 lines (if ltb r.line 10 then 0 else r.index + 1))
