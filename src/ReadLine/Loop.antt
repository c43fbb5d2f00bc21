-- ===== src/ReadLine/Loop.antt =====
-- read_line/main.c, read_line. The descriptor is the list of what the coming calls `read(fd, &ch, 1)`
-- give; after its end every call gives the end of the file. Bytes are numbers.
use c_study.Base.{
  ℕ, ◌+◌, ◌-◌, List, [], ◌∷◌, ◌++◌, Bool, true, false, not, ◌&&◌, ltb, ◌==◌, if◌then◌else◌,
}

abbrev pub Bytes : Type 0
Bytes = List ℕ

-- One call of `read`: EINTR, another error, no byte, or a byte.
pub data Read : Type 0 where
  eintr : Read
  failure : (errno : ℕ) → Read
  eof : Read
  byte : ℕ → Read

-- The value returned: -1, or a count.
pub data Returned : Type 0 where
  minus_one : Returned
  count : ℕ → Returned

-- `buffer` are the bytes written to the buffer, and `terminated` says that `'\0'` was written behind
-- them; `rest` is what the descriptor gives next.
pub record Outcome : Type 0 where
  pub ret : Returned
  pub buffer : Bytes
  pub terminated : Bool
  pub rest : List Read

abbrev pub newline : ℕ
newline = 10

-- `*buf = '\0'; return total;`
finish : Bytes → ℕ → List Read → Outcome
finish buffer total rest = record {
  ret = count total;
  buffer = buffer;
  terminated = true;
  rest = rest;
}

at_eof : Bytes → ℕ → List Read → Outcome
at_eof buffer total rest =
    if total == 0
    then (record { ret = count 0; buffer = buffer; terminated = false; rest = rest })
    else finish buffer total rest

-- `total < n - 1 && ch != '\n'`
stores : ℕ → ℕ → ℕ → Bool
stores n total ch = ltb total (n - 1) && not (ch == newline)

-- The loop `while (1)`, with `n` at least 1.
unfoldable pub read_loop : ℕ → List Read → Bytes → ℕ → Outcome
unfolding finish at_eof stores
read_loop n [] buffer total = at_eof buffer total []
read_loop n (eintr ∷ fd) buffer total = read_loop n fd buffer total
read_loop n (failure e ∷ fd) buffer total = record {
  ret = minus_one;
  buffer = buffer;
  terminated = false;
  rest = fd;
}
read_loop n (eof ∷ fd) buffer total = at_eof buffer total fd
read_loop n (byte ch ∷ fd) buffer total =
    let buffer' = if stores n total ch then buffer ++ ch ∷ [] else buffer in
    let total' = if stores n total ch then total + 1 else total in
    let rest = read_loop n fd buffer' total' in
    if ch == newline then finish buffer' total' fd else rest

-- `null` says that the argument `buffer` is NULL.
unfoldable pub read_line : List Read → Bool → ℕ → Outcome
unfolding read_loop
read_line fd null n =
    if n == 0
    then (record { ret = minus_one; buffer = []; terminated = false; rest = fd })
    else (if null
        then (record { ret = minus_one; buffer = []; terminated = false; rest = fd })
        else read_loop n fd [] 0)
