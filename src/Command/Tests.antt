-- ===== src/Command/Tests.antt =====
-- Short sessions of run_command.
use c_study.Base.{ℕ, ◌≡◌, refl, [], ◌∷◌, ◌++◌, none, some, map, arith}
use c_study.Base.Threads.{replicate}
use c_study.Command.Loop.{
  Text, newline, read_line, fgets, text_of, cut_last, Child, exits, fork_fails, launch, main,
}
use c_study.Command.Session.{IsCommand, script, main_lem}

program : Unit {0}
unfolding read_line fgets text_of cut_last launch main script
program = tt

abbrev ls : Text
ls = b'l' ∷ b's' ∷ []

abbrev ps : Text
ps = b'p' ∷ b's' ∷ []

-- Every command exits with the status 0, but a command of no byte, which cannot be started.
abbrev child : Text → Child
child [] = exits 256
child (c ∷ s) = exits 0

abbrev status : Text → ℕ
status [] = 256
status (c ∷ s) = 0

ls-IsCommand : IsCommand ls
ls-IsCommand = record {
  plain = (
    (λ e. omega (arith, e), λ e. omega (arith, e)),
    ((λ e. omega (arith, e), λ e. omega (arith, e)), tt),
  );
  short = omega arith;
}

ps-IsCommand : IsCommand ps
ps-IsCommand = record {
  plain = (
    (λ e. omega (arith, e), λ e. omega (arith, e)),
    ((λ e. omega (arith, e), λ e. omega (arith, e)), tt),
  );
  short = omega arith;
}

main_lem_example :
    (main 3 child (script (ls ∷ []))
      ≡ record { started = ls ∷ []; statuses = map status (ls ∷ []); ended = some 1 })
    × (main 3 child (script (ls ∷ []) ++ (ps ++ b'x' ∷ [])) ≡ record {
      started = (ls ∷ []) ++ ps ∷ [];
      statuses = map status (ls ∷ []) ++ status ps ∷ [];
      ended = some 1;
    })
main_lem_example =
    main_lem child status (ls ∷ []) ps b'x' 3 (ls-IsCommand, tt) ps-IsCommand
      (λ e. omega (arith, e), λ e. omega (arith, e)) (refl, tt) refl (omega arith)

-- An empty line starts the command of no byte.
empty_line_runs :
    main 2 child (newline ∷ []) ≡ record { started = [] ∷ []; statuses = 256 ∷ []; ended = some 1 }
unfolding program
empty_line_runs = refl

-- A line that begins with a zero byte makes `main` write before its buffer.
zero_byte_runs :
    main 2 child (0 ∷ newline ∷ []) ≡ record { started = []; statuses = []; ended = none }
unfolding program
zero_byte_runs = refl

-- A line of 256 bytes is started in two parts, and each part loses a byte.
long_line_runs : main 3 child (replicate 256 b'a' ++ newline ∷ []) ≡ record {
  started = replicate 254 b'a' ∷ (b'a' ∷ []) ∷ [];
  statuses = 0 ∷ 0 ∷ [];
  ended = some 1;
}
unfolding program
long_line_runs = refl

no_process_runs :
    main 2 (λ command. fork_fails) (b'a' ∷ newline ∷ [])
    ≡ record { started = []; statuses = []; ended = some 1 }
unfolding program
no_process_runs = refl
