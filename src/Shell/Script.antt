-- ===== src/Shell/Script.antt =====
-- simple_shell01/shell.c, main: whole sessions.
use mathlib.Core.List.{append_assoc}
use c_study.Base.{
  ℕ, zero, suc, ◌+◌, ◌^◌, ◌<◌, ◌≡◌, refl, ◌≢◌, ◌∙◌, ap, List, [], ◌∷◌, ◌++◌, map, false, Option,
  some, arith, length, length-append, All, inl, inr,
}
use c_study.Base.Int.{ℤ, pos, negsuc}
use c_study.Shell.Line.{Text, first_line, after_line}
use c_study.Shell.Tokens.{is_delimiter, words}
use c_study.Shell.Words.{IsWord, joined, words-joined}
use c_study.Shell.Execute.{Fork, Result, returned, Action, nothing, lsh_execute}
use c_study.Shell.Loop.{
  Run, done, proceed, c_text, main_loop, action_of, result_of, first_line-length, main_loop-proceed,
}

-- The lines of commands, each given by its words.
unfoldable pub script : List (List Text) → Text
script [] = []
script (c ∷ cs) = joined c ++ 10 ∷ script cs

first_line-word :
    (w s : Text)
    → All (λ d. is_delimiter d ≡ false) w
    → (first_line (w ++ 32 ∷ s) ≡ w ++ 32 ∷ first_line s)
      × (after_line (w ++ 32 ∷ s) ≡ after_line s)
unfolding first_line after_line is_delimiter
first_line-word [] s h = (refl, refl)
first_line-word (c ∷ w) s h = ground (arith, first_line-word w s h.1)

first_line-joined :
    (ws : List Text) (s : Text)
    → All IsWord ws
    → (first_line (joined ws ++ 10 ∷ s) ≡ joined ws) × (after_line (joined ws ++ 10 ∷ s) ≡ s)
unfolding joined first_line after_line
first_line-joined [] s h = (refl, refl)
first_line-joined ([] ∷ ws) s h = absurd h.0
first_line-joined ((c ∷ w) ∷ ws) s h =
    let (a, b) = first_line-word (c ∷ w) (joined ws ++ 10 ∷ s) h.0 in
    let (first, after) = first_line-joined ws s h.1 in
    let e = append_assoc (c ∷ w) (32 ∷ joined ws) (10 ∷ s) in
    (ap first_line e ∙ a ∙ ap (λ t. (c ∷ w) ++ 32 ∷ t) first, ap after_line e ∙ b ∙ after)

proceed-zero :
    (a : Action) (r : Result) (more : Option Run)
    → r ≡ returned (pos 0)
    → proceed a r more ≡ done a more
unfolding proceed
proceed-zero a r more e = rw (e, proceed) refl

main_loop-nil :
    (fuel : ℕ) (home : Option Text) (fork : List Text → Fork)
    → main_loop (suc fuel) home fork []
      ≡ some (record { actions = nothing ∷ []; result = returned (pos 1) })
unfolding first_line c_text words lsh_execute proceed
main_loop-nil fuel home fork = main_loop-proceed fuel home fork [] (omega arith)

abbrev IsNotZero : ℕ → Type 0
IsNotZero b = b ≢ 0

c_text-append : (w s : Text) → All IsNotZero w → c_text (w ++ s) ≡ w ++ c_text s
unfolding c_text
c_text-append [] s h = refl
c_text-append (zero ∷ w) s h = absurd (h.0 refl)
c_text-append (suc c ∷ w) s h = ap (◌∷◌ (suc c)) (c_text-append w s h.1)

c_text-joined : (ws : List Text) → All (All IsNotZero) ws → c_text (joined ws) ≡ joined ws
unfolding joined c_text
c_text-joined [] h = refl
c_text-joined (w ∷ ws) h =
    c_text-append w (32 ∷ joined ws) h.0 ∙ ap (λ t. w ++ 32 ∷ t) (c_text-joined ws h.1)

-- The run ends with the status 1.
abbrev Ends : Option Run → Type 0
Ends more = (run : Run) × (more ≡ some run) × (run.result ≡ returned (pos 1))

proceed-Ends :
    (a : Action) (k : ℤ) (more : Option Run) → Ends more → Ends (proceed a (returned k) more)
unfolding proceed done
proceed-Ends a (pos zero) more (run, e, r) =
    (record { actions = a ∷ run.actions; result = run.result }, rw (e, done) refl, r)
proceed-Ends a (pos (suc k)) more h = (_, refl, refl)
proceed-Ends a (negsuc k) more h = (_, refl, refl)

-- A session that types one command a line, each a list of words without zero bytes, and then ends its input, while
-- every command returns 0: the shell does the commands in their order, and at the end of the input
-- `main` returns 1.
pub main_loop-script :
    (fuel : ℕ) (home : Option Text) (fork : List Text → Fork) (commands : List (List Text))
    → All (All IsWord) commands
    → All (All (All IsNotZero)) commands
    → All (λ c. result_of home fork c ≡ returned (pos 0)) commands
    → length (script commands) + 512 < 2 ^ 64
    → length commands < fuel
    → main_loop fuel home fork (script commands)
      ≡ some (record {
        actions = map (action_of home fork) commands ++ nothing ∷ [];
        result = returned (pos 1);
      })
unfolding script done
main_loop-script zero home fork commands h z k n f = absurd (omega arith)
main_loop-script (suc fuel) home fork [] h z k n f = main_loop-nil fuel home fork
main_loop-script (suc fuel) home fork (c ∷ cs) h z k n f =
    let (first, after) = first_line-joined c (script cs) h.0 in
    let command : words (c_text (first_line (joined c ++ 10 ∷ script cs))) ≡ c =
      ap (λ t. words (c_text t)) first ∙ ap words (c_text-joined c z.0) ∙ words-joined c h.0 in
    let l = length-append (joined c) (10 ∷ script cs) in
    main_loop-proceed fuel home fork (joined c ++ 10 ∷ script cs) n
    ∙ rw (command, after) (proceed-zero _ _ _ k.0)
    ∙ ap (done (action_of home fork c))
        (main_loop-script fuel home fork cs h.1 z.1 k.1 (omega (arith, l)) (omega arith))

-- If every command of a session comes back, with any status, then for every input of up to 2^64 - 513
-- bytes `main` ends after at most one iteration more than the input has bytes, without a write outside
-- of a buffer, and returns 1.
pub main_loop-ends :
    (fuel : ℕ) (home : Option Text) (fork : List Text → Fork) (input : Text)
    → ((args : List Text) → (k : ℤ) × (result_of home fork args ≡ returned k))
    → length input + 512 < 2 ^ 64
    → length input < fuel
    → (run : Run) × (main_loop fuel home fork input ≡ some run) × (run.result ≡ returned (pos 1))
main_loop-ends zero home fork input h n f = absurd (omega arith)
main_loop-ends (suc fuel) home fork [] h n f = (_, main_loop-nil fuel home fork, refl)
main_loop-ends (suc fuel) home fork (c ∷ s) h n f =
    let (_, shorter) = first_line-length (c ∷ s) in
    let args = words (c_text (first_line (c ∷ s))) in
    let (k, e) = h args in
    let less : length (after_line (c ∷ s)) < length (c ∷ s) = elim shorter [
      | inl nil ↦ ground arith
      | inr less ↦ less
    ] in
    let more = main_loop-ends fuel home fork (after_line (c ∷ s)) h (omega arith) (omega arith) in
    rw (main_loop-proceed fuel home fork (c ∷ s) n, e)
      (proceed-Ends (action_of home fork args) k (main_loop fuel home fork (after_line (c ∷ s)))
        more)
