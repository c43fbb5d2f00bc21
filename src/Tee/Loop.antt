-- ===== src/Tee/Loop.antt =====
-- linux/tee01/main.c: the loop over `tee` and `splice`. What the calls give is a list.
use c_study.Base.{
  Bool, if◌then◌else◌, ℕ, zero, suc, ◌-◌, List, [], ◌∷◌, ◌++◌, Option, none, some, take, drop,
  ◌>>=◌,
}

abbrev pub Bytes : Type 0
Bytes = List ℕ

-- One call of `splice`: -1, or the number of bytes moved.
pub data Splice : Type 0 where
  failed : Splice
  moved : ℕ → Splice

-- One round: EAGAIN or another error of `tee`, or the number of bytes that it copied and the calls of
-- `splice` that follow.
pub data Round : Type 0 where
  again failure : Round
  copied : (len : ℕ) → List Splice → Round

-- What is left of the input, what standard output got, and what the file got.
pub record Pipes : Type 0 where
  pub input : Bytes
  pub output : Bytes
  pub file : Bytes

-- `splice` moves the first `slen` bytes of the input to the file.
abbrev pub move : ℕ → Pipes → Pipes
move slen p = record p { input = drop slen p.input; file = p.file ++ take slen p.input }

-- `tee` copies the first `len` bytes of the input to standard output.
abbrev pub copy : ℕ → Pipes → Pipes
copy len p = record p { output = p.output ++ take len p.input }

-- The loop `while (len > 0)`; `none` is a call of `splice` that does not come back.
unfoldable pub splice_loop : List Splice → ℕ → Pipes → Option Pipes
splice_loop calls zero p = some p
splice_loop [] (suc len) p = none
splice_loop (failed ∷ calls) (suc len) p = some p
splice_loop (moved slen ∷ calls) (suc len) p = splice_loop calls (suc len - slen) (move slen p)

-- The status with which the program ends, and its pipes.
pub record Ended : Type 0 where
  pub status : ℕ
  pub pipes : Pipes

-- The loop of `main`; `none` is a call that does not come back.
unfoldable pub main_loop : List Round → Pipes → Option Ended
unfolding splice_loop
main_loop [] p = none
main_loop (again ∷ rounds) p = main_loop rounds p
main_loop (failure ∷ rounds) p = some (record { status = 1; pipes = p })
main_loop (copied zero calls ∷ rounds) p = some (record { status = 0; pipes = p })
main_loop (copied (suc len) calls ∷ rounds) p = do
  p' ← splice_loop calls (suc len) (copy (suc len) p)
  main_loop rounds p'

-- `main`, with the path if there is an argument, and whether `open` succeeds.
unfoldable pub tee_main : Option Bytes → (Bytes → Bool) → List Round → Bytes → Option Ended
unfolding main_loop
tee_main none opens rounds input =
    some (record { status = 1; pipes = record { input = input; output = []; file = [] } })
tee_main (some path) opens rounds input =
    let p : Pipes = record { input = input; output = []; file = [] } in
    let run = main_loop rounds p in
    if opens path then run else some (record { status = 1; pipes = p })
