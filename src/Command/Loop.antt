-- ===== src/Command/Loop.antt =====
-- apue/section01/run_command.c. What `fork` and `waitpid` give is an argument, a function of the command.
use c_study.Base.{ℕ, zero, suc, ◌-◌, List, [], ◌∷◌, Option, none, some, ◌==◌, if◌then◌else◌}

abbrev pub Text : Type 0
Text = List ℕ

abbrev pub newline : ℕ
newline = 10

-- `char buffer[256]`
abbrev pub buf_size : ℕ
buf_size = 256

-- What `fgets` stores before its zero byte, and the input that is left.
pub record Line : Type 0 where
  pub buffer : Text
  pub rest : Text

-- At most `room` bytes, up to a newline.
unfoldable pub read_line : ℕ → Text → Line
read_line zero input = record { buffer = []; rest = input }
read_line (suc room) [] = record { buffer = []; rest = [] }
read_line (suc room) (c ∷ input) =
    let more = read_line room input in
    if c == newline
    then record { buffer = c ∷ []; rest = input }
    else record { buffer = c ∷ more.buffer; rest = more.rest }

-- `fgets(buffer, 256, stdin)`; `none` is NULL.
unfoldable pub fgets : Text → Option Line
unfolding read_line
fgets [] = none
fgets (c ∷ input) = some (read_line (buf_size - 1) (c ∷ input))

-- The bytes before the first zero byte, which are those that `strlen` counts.
unfoldable pub text_of : Text → Text
text_of [] = []
text_of (zero ∷ s) = []
text_of (suc c ∷ s) = suc c ∷ text_of s

-- `buffer[len - 1] = '\0'`; `none` is the write before the buffer.
unfoldable pub cut_last : Text → Option Text
cut_last [] = none
cut_last (c ∷ []) = some []
cut_last (c ∷ d ∷ s) = elim (cut_last (d ∷ s)) [ none ↦ none | some t ↦ some (c ∷ t) ]

-- How a command goes for the parent.
pub data Child : Type 0 where
  fork_fails : Child
  wait_fails : Child
  exits : (status : ℕ) → Child

-- How the loop of `main` ends, and the commands that were started with their statuses.
pub record Session : Type 0 where
  pub started : List Text
  pub statuses : List ℕ
  pub ended : Option ℕ

-- The program stops with this status.
abbrev pub stopped : ℕ → Session
stopped status = record { started = []; statuses = []; ended = some status }

-- A write before the buffer.
abbrev pub faulted : Session
faulted = record { started = []; statuses = []; ended = none }

unfoldable pub launch : (Text → Child) → Text → Session → Session
launch child command rest = elim (child command) [
  | fork_fails ↦ stopped 1
  | wait_fails ↦ record (stopped 1) { started = command ∷ [] }
  | exits status ↦ record rest {
    started = command ∷ rest.started;
    statuses = status ∷ rest.statuses;
  }
]

-- The loop of `main` on fuel; without fuel it faults.
unfoldable pub main : ℕ → (Text → Child) → Text → Session
unfolding fgets text_of cut_last launch
main zero child input = faulted
main (suc fuel) child input = elim (fgets input) [
  | none ↦ stopped 1
  | some line ↦ elim (cut_last (text_of line.buffer)) [
    | none ↦ faulted
    | some command ↦ launch child command (main fuel child line.rest)
  ]
]
