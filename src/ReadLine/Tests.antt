-- ===== src/ReadLine/Tests.antt =====
-- The input of read_line/test_data, as read_line/main.c reads it.
use c_study.Base.{◌≡◌, refl, List, [], ◌∷◌, ◌++◌, true, false, arith}
use c_study.ReadLine.Loop.{Read, eintr, byte, count, newline, read_line}
use c_study.ReadLine.Line.{Fits, read_line-line, read_line-Fits}

abbrev foo : List Read
foo = byte b'f' ∷ eintr ∷ byte b'o' ∷ byte b'o' ∷ []

-- Line by line, as `main` asserts.
foo_runs : read_line (foo ++ byte newline ∷ byte b'b' ∷ []) false 32 ≡ record {
  ret = count 3;
  buffer = b'f' ∷ b'o' ∷ b'o' ∷ [];
  terminated = true;
  rest = byte b'b' ∷ [];
}
unfolding read_line
foo_runs = refl

read_line-line_example :
    read_line (foo ++ byte newline ∷ byte b'b' ∷ []) false 3
    ≡ record { ret = count 2; buffer = b'f' ∷ b'o' ∷ []; terminated = true; rest = byte b'b' ∷ [] }
read_line-line_example = read_line-line 3 foo (byte b'b' ∷ []) (omega arith) (omega arith)

read_line-Fits_example : Fits 2 (read_line foo false 2)
read_line-Fits_example = read_line-Fits foo false 2
