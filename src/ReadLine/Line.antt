-- ===== src/ReadLine/Line.antt =====
-- What read_line reads and writes.
use mathlib.Core.List.{append-nil, append_assoc}
use Prim.Native.Nat.{min}
use c_study.Base.{
  ℕ, zero, suc, ◌+◌, ◌-◌, ◌≤◌, ◌<◌, ◌≡◌, refl, ◌≢◌, ◌∙◌, List, [], ◌∷◌, ◌++◌, Bool, true, false,
  arith, length, ◌⊎◌, length-append, length-take, take, All, if◌then◌else◌, ltb,
}
use c_study.ReadLine.Loop.{
  Bytes, Read, eintr, failure, eof, byte, minus_one, count, Outcome, newline, read_loop, read_line,
}

-- A read that neither fails nor ends a line.
abbrev pub IsPlain : Read → Type 0
IsPlain eintr = Unit
IsPlain (failure e) = ⊥
IsPlain eof = ⊥
IsPlain (byte ch) = ch ≢ newline

-- The bytes that the reads give.
abbrev pub bytes : List Read → Bytes
bytes [] = []
bytes (byte ch ∷ fd) = ch ∷ bytes fd
bytes (_ ∷ fd) = bytes fd

module _ (n ch : ℕ) (fd : List Read) (buffer : Bytes) (total : ℕ) (plain : ch ≢ newline) where
  read_loop_store :
      total < n - 1
      → read_loop n (byte ch ∷ fd) buffer total ≡ read_loop n fd (buffer ++ ch ∷ []) (total + 1)
  unfolding read_loop
  read_loop_store h = ground arith

  read_loop_skip :
      n - 1 ≤ total → read_loop n (byte ch ∷ fd) buffer total ≡ read_loop n fd buffer total
  unfolding read_loop
  read_loop_skip h = ground arith

-- Plain reads store the first bytes that still fit.
read_loop-plain :
    (n k : ℕ) (fd fd' : List Read) (buffer : Bytes) (total : ℕ)
    → k ≡ n - 1 - total
    → All IsPlain fd
    → read_loop n (fd ++ fd') buffer total
      ≡ read_loop n fd' (buffer ++ take k (bytes fd)) (total + length (take k (bytes fd)))
unfolding read_loop
read_loop-plain n zero [] fd' buffer total e h =
    let z : total + 0 ≡ total = omega arith in rw (append-nil, z)
read_loop-plain n (suc k) [] fd' buffer total e h =
    let z : total + 0 ≡ total = omega arith in rw (append-nil, z)
read_loop-plain n k (eintr ∷ fd) fd' buffer total e h =
    read_loop-plain n k fd fd' buffer total e h.1
read_loop-plain n k (failure _ ∷ fd) fd' buffer total e h = absurd h.0
read_loop-plain n k (eof ∷ fd) fd' buffer total e h = absurd h.0
read_loop-plain n zero (byte ch ∷ fd) fd' buffer total e h =
    read_loop_skip n ch (fd ++ fd') buffer total h.0 (omega arith)
    ∙ read_loop-plain n zero fd fd' buffer total e h.1
read_loop-plain n (suc k) (byte ch ∷ fd) fd' buffer total e h =
    let z : total + suc (length (take k (bytes fd))) ≡ total + 1 + length (take k (bytes fd)) =
      omega arith in
    read_loop_store n ch (fd ++ fd') buffer total h.0 (omega arith)
    ∙ read_loop-plain n k fd fd' (buffer ++ ch ∷ []) (total + 1) (omega arith) h.1
    ∙ rw (append_assoc buffer (ch ∷ []) (take k (bytes fd)), z)

read_line_start : (fd : List Read) (n : ℕ) → 0 < n → read_line fd false n ≡ read_loop n fd [] 0
unfolding read_line
read_line_start fd n h = ground arith

-- For a buffer of `n` bytes, `n` at least 1, and reads that give a line byte by byte, with interrupted
-- calls anywhere, and then a newline: read_line stores the first `n - 1` bytes of the line with a zero
-- byte behind them, returns their number, and has consumed the line and its newline and no more.
pub read_line-line :
    (n : ℕ) (fd rest : List Read)
    → 0 < n
    → All IsPlain fd
    → read_line (fd ++ byte newline ∷ rest) false n ≡ record {
      ret = count (min (n - 1) (length (bytes fd)));
      buffer = take (n - 1) (bytes fd);
      terminated = true;
      rest = rest;
    }
unfolding read_loop
read_line-line n fd rest h plain =
    let z : n - 1 - 0 ≡ n - 1 = omega arith in
    read_line_start (fd ++ byte newline ∷ rest) n h
    ∙ read_loop-plain n (n - 1) fd (byte newline ∷ rest) [] 0 (omega arith) plain
    ∙ ground (arith, length-take (n - 1) (bytes fd))

-- For a buffer of `n` bytes, `n` at least 2, and reads that give no newline before the end of the file:
-- if they give no byte, read_line returns 0 and writes nothing, not even the zero byte; otherwise it
-- stores and counts the first `n - 1` bytes, with a zero byte behind them.
read_line-eof :
    (n : ℕ) (fd rest : List Read)
    → 1 < n
    → All IsPlain fd
    → read_line (fd ++ eof ∷ rest) false n ≡ record {
      ret = count (min (n - 1) (length (bytes fd)));
      buffer = take (n - 1) (bytes fd);
      terminated = ltb 0 (length (bytes fd));
      rest = rest;
    }
unfolding read_loop
read_line-eof n fd rest h plain =
    read_line_start (fd ++ eof ∷ rest) n (omega arith)
    ∙ read_loop-plain n (n - 1) fd (eof ∷ rest) [] 0 (omega arith) plain
    ∙ ground (arith, length-take (n - 1) (bytes fd))

abbrev used : Outcome → ℕ
used o = length o.buffer + (if o.terminated then 1 else 0)

-- What every outcome says of its buffer.
abbrev pub Fits : ℕ → Outcome → Type 0
Fits n o = (used o ≤ n) × ((o.ret ≡ minus_one) ⊎ (o.ret ≡ count (length o.buffer)))

read_loop-Fits :
    (n : ℕ) (fd : List Read) (buffer : Bytes) (total : ℕ)
    → length buffer ≡ total
    → total + 1 ≤ n
    → Fits n (read_loop n fd buffer total)
unfolding read_loop
read_loop-Fits n [] buffer total e h = ground arith
read_loop-Fits n (eintr ∷ fd) buffer total e h = read_loop-Fits n fd buffer total e h
read_loop-Fits n (failure _ ∷ fd) buffer total e h = ground arith
read_loop-Fits n (eof ∷ fd) buffer total e h = ground arith
read_loop-Fits n (byte ch ∷ fd) buffer total e h = ground (
  arith,
  length-append buffer (ch ∷ []),
  read_loop-Fits n fd buffer total e h,
  read_loop-Fits n fd (buffer ++ ch ∷ []) (total + 1),
)

-- Whatever the descriptor gives, read_line writes at most `n` bytes, the zero byte included, and
-- returns -1 or the number of bytes before the zero byte.
pub read_line-Fits : (fd : List Read) (null : Bool) (n : ℕ) → Fits n (read_line fd null n)
unfolding read_line
read_line-Fits fd null n = ground (arith, read_loop-Fits n fd [] 0 refl)

-- If a read fails with an error other than EINTR before the line ends, read_line returns -1 at once, the
-- bytes up to there are consumed, and no zero byte is written.
read_line-failure :
    (n e : ℕ) (fd rest : List Read)
    → 0 < n
    → All IsPlain fd
    → read_line (fd ++ failure e ∷ rest) false n ≡ record {
      ret = minus_one;
      buffer = take (n - 1) (bytes fd);
      terminated = false;
      rest = rest;
    }
unfolding read_loop
read_line-failure n e fd rest h plain =
    read_line_start (fd ++ failure e ∷ rest) n h
    ∙ read_loop-plain n (n - 1) fd (failure e ∷ rest) [] 0 (omega arith) plain
