-- ===== src/Shell/Execute.antt =====
-- simple_shell01/shell.c, lsh_execute and what it calls.
use c_study.Base.{
  ℕ, zero, suc, ◌≡◌, refl, ◌≢◌, ◌∙◌, ap, List, [], ◌∷◌, Bool, true, false, ◌&&◌, Option, some,
  arith, ◌==◌, if◌then◌else◌, Bool-cases, inl, inr,
}
use c_study.Base.Int.{ℤ, pos, negsuc}
use c_study.Shell.Line.{Text}

-- What `waitpid` reports of a process. WUNTRACED makes it report one that is stopped, too.
pub data Status : Type 0 where
  exited signaled stopped : Status

-- `fork`: an error, the child, or the parent with what its calls of `waitpid` will report.
pub data Fork : Type 0 where
  failed : Fork
  child : Fork
  parent : List Status → Fork

-- How a call ends: it returns, it waits for ever, or this process is the child, which runs the program
-- or exits with 1.
pub data Result : Type 0 where
  returned : ℤ → Result
  waiting : Result
  replaced : Result

-- The loop `do ... while (!WIFEXITED(status) && !WIFSIGNALED(status))`
unfoldable pub wait_loop : List Status → Result
wait_loop [] = waiting
wait_loop (exited ∷ events) = returned (pos 0)
wait_loop (signaled ∷ events) = returned (pos 0)
wait_loop (stopped ∷ events) = wait_loop events

-- What is done to the system.
pub data Action : Type 0 where
  nothing : Action
  changed_dir : (dir : Option Text) → Action
  forked : (args : List Text) → Action

pub record Executed : Type 0 where
  pub action : Action
  pub result : Result

unfoldable pub lsh_launch : List Text → Fork → Executed
unfolding wait_loop
lsh_launch args failed = record { action = forked args; result = returned (negsuc 0) }
lsh_launch args child = record { action = forked args; result = replaced }
lsh_launch args (parent events) = record { action = forked args; result = wait_loop events }

-- `home` is the variable HOME. A chdir that fails is only reported.
unfoldable pub builtin_cd : Option Text → List Text → Executed
builtin_cd home (a ∷ dir ∷ args) = record {
  action = changed_dir (some dir);
  result = returned (pos 0);
}
builtin_cd home _ = record { action = changed_dir home; result = returned (pos 0) }

unfoldable pub builtin_exit : List Text → Executed
builtin_exit args = record { action = nothing; result = returned (pos 1) }

pub record BuiltinFunction : Type 0 where
  pub name : Text
  pub func : Option Text → List Text → Executed

abbrev pub cd_name : Text
cd_name = b'c' ∷ b'd' ∷ []

abbrev pub exit_name : Text
exit_name = b'e' ∷ b'x' ∷ b'i' ∷ b't' ∷ []

unfoldable pub builtin_functions : List BuiltinFunction
unfolding builtin_cd builtin_exit
builtin_functions =
    (record { name = cd_name; func = builtin_cd })
    ∷ (record { name = exit_name; func = λ home args. builtin_exit args })
    ∷ []

-- `strcmp(s, t) == 0`
unfoldable pub same_text : Text → Text → Bool
same_text [] [] = true
same_text [] (d ∷ t) = false
same_text (c ∷ s) [] = false
same_text (c ∷ s) (d ∷ t) = c == d && same_text s t

-- The loop over the table, and the launch behind it.
unfoldable pub dispatch : List BuiltinFunction → Option Text → Text → List Text → Fork → Executed
unfolding lsh_launch same_text
dispatch [] home arg args fork = lsh_launch (arg ∷ args) fork
dispatch (f ∷ fs) home arg args fork =
    let rest = dispatch fs home arg args fork in
    if same_text arg f.name then f.func home (arg ∷ args) else rest

unfoldable pub lsh_execute : Option Text → List Text → Fork → Executed
unfolding dispatch builtin_functions
lsh_execute home [] fork = record { action = nothing; result = returned (pos 1) }
lsh_execute home (arg ∷ args) fork = dispatch builtin_functions home arg args fork

same_text_refl : (s : Text) → same_text s s ≡ true
unfolding same_text
same_text_refl [] = refl
same_text_refl (c ∷ s) = ground (arith, same_text_refl s)

eq_of_same_text : (s t : Text) → same_text s t ≡ true → s ≡ t
unfolding same_text
eq_of_same_text [] [] h = refl
eq_of_same_text [] (d ∷ t) h = ground arith
eq_of_same_text (c ∷ s) [] h = ground arith
eq_of_same_text (c ∷ s) (d ∷ t) h = ground (arith, eq_of_same_text s t)

same_text-false : (s t : Text) → s ≢ t → same_text s t ≡ false
same_text-false s t h = elim (Bool-cases (same_text s t)) [
  | inl e ↦ absurd (h (eq_of_same_text s t e))
  | inr f ↦ f
]

-- `n` reports that the process is stopped, before others.
unfoldable pub stops : ℕ → List Status → List Status
stops zero events = events
stops (suc n) events = stopped ∷ stops n events

wait_loop-stops : (n : ℕ) (events : List Status) → wait_loop (stops n events) ≡ wait_loop events
unfolding wait_loop stops
wait_loop-stops zero events = refl
wait_loop-stops (suc n) events = wait_loop-stops n events

lsh_execute-lsh_launch :
    (home : Option Text) (arg : Text) (args : List Text) (fork : Fork)
    → arg ≢ cd_name
    → arg ≢ exit_name
    → lsh_execute home (arg ∷ args) fork ≡ lsh_launch (arg ∷ args) fork
unfolding lsh_execute dispatch builtin_functions
lsh_execute-lsh_launch home arg args fork h k =
    let a = same_text-false arg cd_name h in
    let b = same_text-false arg exit_name k in rw (a, dispatch) (rw (b, dispatch) refl)

-- A command whose name is not built in is launched with all its words. lsh_execute returns 0 after the
-- first report that its process exited or was killed, however often it was stopped before. If no such
-- report comes it does not return, and if fork fails it returns -1.
lsh_execute-stops :
    (home : Option Text) (arg : Text) (args : List Text) (n : ℕ) (later : List Status)
    → arg ≢ cd_name
    → arg ≢ exit_name
    → (lsh_execute home (arg ∷ args) (parent (stops n (exited ∷ later)))
        ≡ record { action = forked (arg ∷ args); result = returned (pos 0) })
      × (lsh_execute home (arg ∷ args) (parent (stops n (signaled ∷ later)))
          ≡ record { action = forked (arg ∷ args); result = returned (pos 0) })
      × (lsh_execute home (arg ∷ args) (parent (stops n []))
          ≡ record { action = forked (arg ∷ args); result = waiting })
      × (lsh_execute home (arg ∷ args) failed
          ≡ record { action = forked (arg ∷ args); result = returned (negsuc 0) })
unfolding lsh_launch wait_loop
lsh_execute-stops home arg args n later h k =
    let launched = λ (fork : Fork). lsh_execute-lsh_launch home arg args fork h k in
    let ended : Result → Executed =
      λ (r : Result). record { action = forked (arg ∷ args); result = r } in
    (
      launched (parent (stops n (exited ∷ later))) ∙ ap ended (wait_loop-stops n (exited ∷ later)),
      launched (parent (stops n (signaled ∷ later)))
          ∙ ap ended (wait_loop-stops n (signaled ∷ later)),
      launched (parent (stops n [])) ∙ ap ended (wait_loop-stops n []),
      launched failed,
    )

-- The built-in commands fork no process: `exit` makes lsh_execute return 1, with any arguments, and so
-- does a line with no word; `cd` changes to its first argument, or to HOME without one, ignores further
-- arguments and returns 0.
lsh_execute-builtin_functions :
    (home : Option Text) (dir : Text) (args : List Text) (fork : Fork)
    → (lsh_execute home (exit_name ∷ args) fork
        ≡ record { action = nothing; result = returned (pos 1) })
      × (lsh_execute home [] fork ≡ record { action = nothing; result = returned (pos 1) })
      × (lsh_execute home (cd_name ∷ dir ∷ args) fork
          ≡ record { action = changed_dir (some dir); result = returned (pos 0) })
      × (lsh_execute home (cd_name ∷ []) fork
          ≡ record { action = changed_dir home; result = returned (pos 0) })
unfolding lsh_execute dispatch builtin_functions same_text builtin_cd builtin_exit
lsh_execute-builtin_functions home dir args fork = (refl, refl, refl, refl)
