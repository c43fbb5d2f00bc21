-- ===== src/Shell/Loop.antt =====
-- simple_shell01/shell.c, main.
use c_study.Base.{
  ℕ, zero, suc, ◌+◌, ◌^◌, ◌≤◌, ◌<◌, ◌≡◌, refl, List, [], ◌∷◌, Option, none, some, arith, length,
  ◌>>=◌, ◌⊎◌, inl,
}
use c_study.Base.Int.{pos, negsuc}
use c_study.Shell.Line.{Text, lsh_read_line, first_line, after_line, lsh_read_line_lem}
use c_study.Shell.Tokens.{words, lsh_split_line, lsh_split_line-words}
use c_study.Shell.Execute.{Fork, Result, returned, waiting, replaced, Action, lsh_execute}

-- What was done, in order, and how `main` ends.
pub record Run : Type 0 where
  pub actions : List Action
  pub result : Result

-- A command done before others.
unfoldable pub done : Action → Option Run → Option Run
done a none = none
done a (some r) = some (record { actions = a ∷ r.actions; result = r.result })

-- What follows a command: the next one after the status 0, `return 1` after any other.
unfoldable pub proceed : Action → Result → Option Run → Option Run
unfolding done
proceed a (returned (pos zero)) more = done a more
proceed a (returned (pos (suc n))) more =
    some (record { actions = a ∷ []; result = returned (pos 1) })
proceed a (returned (negsuc n)) more = some (record { actions = a ∷ []; result = returned (pos 1) })
proceed a waiting more = some (record { actions = a ∷ []; result = waiting })
proceed a replaced more = some (record { actions = a ∷ []; result = replaced })

-- The line as `strtok` reads it, up to the first zero byte.
unfoldable pub c_text : Text → Text
c_text [] = []
c_text (zero ∷ s) = []
c_text (suc c ∷ s) = suc c ∷ c_text s

c_text-length : (s : Text) → length (c_text s) ≤ length s
unfolding c_text
c_text-length [] = omega arith
c_text-length (zero ∷ s) = omega arith
c_text-length (suc c ∷ s) = omega (arith, c_text-length s)

-- The loop, on fuel; `fork` gives for the words of a command what its `fork` will return. `none` is a
-- write outside of a buffer, or fuel that ran out.
unfoldable pub main_loop : ℕ → Option Text → (List Text → Fork) → Text → Option Run
unfolding proceed c_text
main_loop zero home fork input = none
main_loop (suc fuel) home fork input = do
  line ← lsh_read_line input
  args ← lsh_split_line (c_text line.buffer)
  let executed = lsh_execute home args.args (fork args.args)
  proceed executed.action executed.result (main_loop fuel home fork line.rest)

pub first_line-length :
    (s : Text)
    → (length (first_line s) ≤ length s) × ((s ≡ []) ⊎ (length (after_line s) < length s))
unfolding first_line after_line
first_line-length [] = (omega arith, inl refl)
first_line-length (c ∷ s) = ground (arith, first_line-length s)

-- What lsh_execute does and returns for the command on a line.
abbrev pub action_of : Option Text → (List Text → Fork) → List Text → Action
action_of home fork args = (lsh_execute home args (fork args)).action

abbrev pub result_of : Option Text → (List Text → Fork) → List Text → Result
result_of home fork args = (lsh_execute home args (fork args)).result

pub main_loop-proceed :
    (fuel : ℕ) (home : Option Text) (fork : List Text → Fork) (input : Text)
    → length input + 512 < 2 ^ 64
    → main_loop (suc fuel) home fork input
      ≡ proceed
          (action_of home fork (words (c_text (first_line input))))
          (result_of home fork (words (c_text (first_line input))))
          (main_loop fuel home fork (after_line input))
unfolding main_loop
main_loop-proceed fuel home fork input h =
    rw (lsh_read_line_lem input h, main_loop)
      (rw
        (
          lsh_split_line-words (c_text (first_line input))
              (omega (arith, first_line-length input, c_text-length (first_line input))),
          main_loop,
        )
        refl)
