-- ===== src/Tee/Copies.antt =====
-- Both outputs of linux/tee01/main.c get the same.
use mathlib.Core.List.{append_assoc, append-nil}
use c_study.Base.{
  ℕ, zero, suc, ◌-◌, ◌≤◌, ◌≡◌, refl, sym, ap, ◌∙◌, List, [], ◌∷◌, ◌++◌, some, take, drop, All,
  bind_some, arith,
}
use c_study.Tee.Loop.{
  Bytes, Splice, failed, moved, Round, again, failure, copied, Pipes, move, copy, splice_loop,
  Ended, main_loop,
}

-- No call of `splice` fails, or moves more than is asked for.
abbrev pub Moves : List Splice → ℕ → Type 0
Moves calls zero = Unit {0}
Moves [] (suc len) = Unit {0}
Moves (failed ∷ calls) (suc len) = ⊥
Moves (moved slen ∷ calls) (suc len) = (slen ≤ suc len) × Moves calls (suc len - slen)

abbrev pub IsMoving : Round → Type 0
IsMoving again = Unit {0}
IsMoving failure = Unit {0}
IsMoving (copied len calls) = Moves calls len

take_nil : (n : ℕ) → take {A = ℕ} n [] ≡ []
take_nil zero = refl
take_nil (suc n) = refl

take-drop : (n : ℕ) (s : Bytes) → take n s ++ drop n s ≡ s
take-drop zero s = refl
take-drop (suc n) [] = refl
take-drop (suc n) (c ∷ s) = ap (◌∷◌ c) (take-drop n s)

-- `k` bytes, and then `n - k` more.
take-split : (n k : ℕ) (s : Bytes) → k ≤ n → take k s ++ take (n - k) (drop k s) ≡ take n s
take-split n zero s h = ap (λ m. take m s) (omega arith)
take-split zero (suc k) s h = absurd (omega arith)
take-split (suc n) (suc k) [] h = take_nil (suc n - suc k)
take-split (suc n) (suc k) (c ∷ s) h =
    ap (λ m. c ∷ (take k s ++ take m (drop k s))) (omega arith)
    ∙ ap (◌∷◌ c) (take-split n k s (omega arith))

-- Standard output is ahead of the file by the first `len` bytes of the input.
splice_loop-file :
    (calls : List Splice) (len : ℕ) (p : Pipes) {q : Pipes}
    → Moves calls len
    → p.output ≡ p.file ++ take len p.input
    → splice_loop calls len p ≡ some q
    → (q.output ≡ q.file) × (q.file ++ q.input ≡ p.file ++ p.input)
unfolding splice_loop
splice_loop-file calls zero p {q} m ahead e =
    let done : p ≡ q = cc e in
    (
      ap (λ t. t.output) (sym done) ∙ ahead ∙ append-nil p.file ∙ ap (λ t. t.file) done,
      ap (λ t. t.file ++ t.input) (sym done),
    )
splice_loop-file [] (suc len) p {q} m ahead e = cc
splice_loop-file (failed ∷ calls) (suc len) p {q} m ahead e = absurd m
splice_loop-file (moved slen ∷ calls) (suc len) p {q} m ahead e =
    let (same, all) =
      splice_loop-file calls (suc len - slen) (move slen p) m.1
        (ahead
          ∙ ap (λ b. p.file ++ b) (sym (take-split (suc len) slen p.input m.0))
          ∙ sym (append_assoc p.file (take slen p.input) _))
        e in
    (
      same,
      all
          ∙ append_assoc p.file (take slen p.input) _
          ∙ ap (λ b. p.file ++ b) (take-drop slen p.input),
    )

ended :
    (status : ℕ) (p : Pipes) {r : Ended}
    → p.output ≡ p.file
    → some (record { status = status; pipes = p }) ≡ some r
    → (r.pipes.output ≡ r.pipes.file) × (r.pipes.file ++ r.pipes.input ≡ p.file ++ p.input)
ended status p {r} same e =
    let done : p ≡ r.pipes = cc e in
    (
      ap (λ t. t.output) (sym done) ∙ same ∙ ap (λ t. t.file) done,
      ap (λ t. t.file ++ t.input) (sym done),
    )

-- When the program ends, `tee` has failed or found the end of the input, both outputs are the same, and the
-- file has exactly what was taken off the input, if no call of `splice` fails or moves more than it is
-- asked for.
main_loop-file :
    (rounds : List Round) (p : Pipes) {r : Ended}
    → All IsMoving rounds
    → p.output ≡ p.file
    → main_loop rounds p ≡ some r
    → (r.pipes.output ≡ r.pipes.file) × (r.pipes.file ++ r.pipes.input ≡ p.file ++ p.input)
unfolding main_loop
main_loop-file [] p a same e = cc
main_loop-file (again ∷ rounds) p a same e = main_loop-file rounds p a.1 same e
main_loop-file (failure ∷ rounds) p {r} a same e = ended 1 p same e
main_loop-file (copied zero calls ∷ rounds) p {r} a same e = ended 0 p same e
main_loop-file (copied (suc len) calls ∷ rounds) p a same e =
    let (q, moves, later) = bind_some (splice_loop calls (suc len) (copy (suc len) p)) _ e in
    let (even, all) =
      splice_loop-file calls (suc len) (copy (suc len) p) a.0
        (ap (λ b. b ++ take (suc len) p.input) same) moves in
    let (even', all') = main_loop-file rounds q a.1 even later in (even', all' ∙ all)
