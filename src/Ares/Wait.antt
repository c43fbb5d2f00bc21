-- ===== src/Ares/Wait.antt =====
-- The wait for the answer comes to its end.
use mathlib.Core.List.{append-nil}
use c_study.Base.{
  ℕ, zero, suc, ◌<◌, ◌≡◌, refl, ap, ◌∙◌, List, [], ◌∷◌, true, Option, some, length, arith,
  Bool-cases, inl, inr, ◌==◌,
}
use c_study.Ares.Library.{Bytes, Answer, Library}
use c_study.Ares.Lookup.{Line, callback, printed, host_of, wait_ares, main}

singleton : {A : Type 0} (xs : List A) → length xs ≡ 1 → (x : A) × (xs ≡ x ∷ [])
singleton [] e = absurd (omega (arith, e))
singleton (x ∷ []) e = (x, refl)
singleton (x ∷ y ∷ xs) e = absurd (omega (arith, e))

module _ (l : Library) where
  open l use {
    Channel, ares_fds, ares_process, given, asked, open_queries, attempts, fds_lem, answered_once,
    asked-process, attempts_fall,
  }

  wait_ares-answered :
      (fuel : ℕ) (c : Channel)
      → attempts c < fuel
      → (d : Channel) × (wait_ares l fuel c ≡ some d) × (open_queries d ≡ 0) × (asked d ≡ asked c)
  unfolding wait_ares
  wait_ares-answered zero c h = absurd (omega arith)
  wait_ares-answered (suc fuel) c h = elim (Bool-cases (ares_fds c == 0)) [
    | inl e ↦ (c, rw e refl, fds_lem c (ground arith), refl)
    | inr e ↦
        let falls = attempts_fall c (ground arith) in
        let (d, w, o, a) = wait_ares-answered fuel (ares_process c) (omega arith) in
        (d, rw e w, o, a ∙ asked-process c)
  ]

  -- If the library starts and the lookup asks one question, then with fuel above the attempts that the lookup
  -- has, `main` does not wait for ever: it returns 0 in a state of the channel in which the callback was given
  -- exactly one answer, and it has printed what the callback prints for this one.
  main-answer :
      (fuel : ℕ) (gethostbyname : Bytes → Channel) (arg : Option Bytes)
      → asked (gethostbyname (host_of arg)) ≡ 1
      → attempts (gethostbyname (host_of arg)) < fuel
      → (d : Channel) × (a : Answer) × (given d ≡ a ∷ [])
        × (main l fuel true true gethostbyname arg
            ≡ some (record { lines = callback a; status = 0 }))
  unfolding main printed
  main-answer fuel gethostbyname arg one h =
      let (d, w, o, n) = wait_ares-answered fuel (gethostbyname (host_of arg)) h in
      let (a, e) = singleton (given d) (omega (arith, answered_once d, o, n, one)) in
      (
        d,
        a,
        e,
        rw w (
            rw e (
              ap (λ (k : List Line). some (record { lines = k; status = 0 }))
                (append-nil (callback a)))),
      )
