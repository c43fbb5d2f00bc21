-- ===== src/Filters/Input.antt =====
-- What the filters of futuu_no_linux_programming read: bytes, and what calls of `read` give.
use c_study.Base.{ℕ, suc, ◌+◌, ◌≡◌, List, [], ◌∷◌, ◌++◌, arith, ◌==◌, if◌then◌else◌}

abbrev pub Bytes : Type 0
Bytes = List ℕ

abbrev pub newline : ℕ
newline = 10

-- One call of `read(fd, buffer, 4096)`: EINTR, another error, or bytes. No byte is the end of the file,
-- which is also what every call gives after the end of a list of reads.
pub data Read : Type 0 where
  eintr failure : Read
  got : Bytes → Read

-- The bytes up to the end of the file.
unfoldable pub content : List Read → Bytes
content [] = []
content (eintr ∷ fd) = content fd
content (failure ∷ fd) = content fd
content (got [] ∷ fd) = []
content (got (c ∷ buffer) ∷ fd) = c ∷ (buffer ++ content fd)

-- The number of newlines.
unfoldable pub newlines : Bytes → ℕ
newlines [] = 0
newlines (c ∷ s) = if c == newline then suc (newlines s) else newlines s

pub newlines-append : (s t : Bytes) → newlines (s ++ t) ≡ newlines s + newlines t
unfolding newlines
newlines-append [] t = omega arith
newlines-append (c ∷ s) t = ground (arith, newlines-append s t)
