-- ===== src/Shell/Tests.antt =====
-- simple_shell01/shell.c at concrete inputs.
use c_study.Base.{
  ◌≡◌, refl, ◌≢◌, List, [], ◌∷◌, true, false, none, some, arith, All, Bool-cases, inl, inr,
}
use c_study.Base.Int.{ℤ, pos}
use c_study.Shell.Line.{Text, first_line, after_line, lsh_read_line, lsh_read_line_lem}
use c_study.Shell.Tokens.{is_delimiter, words, starts, attach, lsh_split_line, lsh_split_line-words}
use c_study.Shell.Words.{IsWord, joined}
use c_study.Shell.Execute.{
  exited, stopped, Fork, parent, returned, nothing, cd_name, exit_name, lsh_execute, stops,
  lsh_launch, wait_loop, dispatch, same_text, builtin_functions, builtin_cd, builtin_exit,
}
use c_study.Shell.Loop.{Run, main_loop, action_of, result_of}
use c_study.Shell.Script.{script, main_loop-script, main_loop-ends}

program : Unit {0}
unfolding first_line after_line is_delimiter words starts attach joined lsh_execute stops lsh_launch
    wait_loop dispatch same_text builtin_functions script
program = tt

abbrev ls : Text
ls = b'l' ∷ b's' ∷ []

abbrev ls_a : List Text
ls_a = ls ∷ (b'-' ∷ b'a' ∷ []) ∷ []

-- Two commands, of which the first has a space more than it needs.
abbrev typed : Text
typed = 32 ∷ b'l' ∷ b's' ∷ 32 ∷ b'-' ∷ b'a' ∷ 10 ∷ b'c' ∷ b'd' ∷ []

-- Every process is stopped once and then exits.
abbrev well : List Text → Fork
well args = parent (stopped ∷ exited ∷ [])

lsh_read_line_lem_example :
    lsh_read_line typed
    ≡ some (record {
      buffer = 32 ∷ b'l' ∷ b's' ∷ 32 ∷ b'-' ∷ b'a' ∷ [];
      buf_size = 256;
      rest = cd_name;
    })
unfolding program
lsh_read_line_lem_example = lsh_read_line_lem typed (omega arith)

lsh_split_line-words_example :
    lsh_split_line (32 ∷ b'l' ∷ b's' ∷ 32 ∷ b'-' ∷ b'a' ∷ [])
    ≡ some (record { args = ls_a; buf_size = 128 })
unfolding program
lsh_split_line-words_example =
    lsh_split_line-words (32 ∷ b'l' ∷ b's' ∷ 32 ∷ b'-' ∷ b'a' ∷ []) (omega arith)

IsWord-ls_a : All IsWord ls_a
unfolding is_delimiter
IsWord-ls_a = ((refl, (refl, tt)), ((refl, (refl, tt)), tt))

ls-cd_name : ls ≢ cd_name
ls-cd_name = λ e. ground arith

ls-exit_name : ls ≢ exit_name
ls-exit_name = λ e. ground arith

result_of-ls_a : result_of none well ls_a ≡ returned (pos 0)
unfolding program
result_of-ls_a = refl

main_loop-script_example :
    main_loop 2 none well (script (ls_a ∷ []))
    ≡ some (record { actions = action_of none well ls_a ∷ nothing ∷ []; result = returned (pos 1) })
unfolding script joined
main_loop-script_example =
    main_loop-script 2 none well (ls_a ∷ []) (IsWord-ls_a, tt)
      (
        (
          ((λ e. omega arith), ((λ e. omega arith), tt)),
          (((λ e. omega arith), ((λ e. omega arith), tt)), tt),
        ),
        tt,
      )
      (result_of-ls_a, tt) (omega arith) (omega arith)

module _ (arg : Text) (args : List Text) where
  runs :
      same_text arg cd_name ≡ false
      → same_text arg exit_name ≡ false
      → result_of none well (arg ∷ args) ≡ returned (pos 0)
  unfolding program
  runs f g =
      rw (f, dispatch, lsh_execute, result_of) (rw (g, dispatch, lsh_execute, result_of) refl)

  leaves :
      same_text arg cd_name ≡ false
      → same_text arg exit_name ≡ true
      → result_of none well (arg ∷ args) ≡ returned (pos 1)
  unfolding program builtin_exit
  leaves f t =
      rw (f, dispatch, lsh_execute, result_of) (rw (t, dispatch, lsh_execute, result_of) refl)

cds :
    (arg : Text) (args : List Text)
    → same_text arg cd_name ≡ true
    → result_of none well (arg ∷ args) ≡ returned (pos 0)
unfolding program builtin_cd
cds arg [] t = rw (t, dispatch, lsh_execute, result_of) refl
cds arg (dir ∷ args) t = rw (t, dispatch, lsh_execute, result_of) refl

-- Whatever the command, it returns 0 or 1.
comes_back : (args : List Text) → (k : ℤ) × (result_of none well args ≡ returned k)
unfolding lsh_execute
comes_back [] = (pos 1, refl)
comes_back (arg ∷ args) = elim (Bool-cases (same_text arg cd_name)) [
  | inl t ↦ (pos 0, cds arg args t)
  | inr f ↦ elim (Bool-cases (same_text arg exit_name)) [
    | inl t ↦ (pos 1, leaves arg args f t)
    | inr g ↦ (pos 0, runs arg args f g)
  ]
]

main_loop-ends_example :
    (run : Run) × (main_loop 10 none well typed ≡ some run) × (run.result ≡ returned (pos 1))
main_loop-ends_example = main_loop-ends 10 none well typed comes_back (omega arith) (omega arith)
