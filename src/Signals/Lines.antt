-- ===== src/Signals/Lines.antt =====
-- What the process prints.
use mathlib.Core.Path.{subst}
use c_study.Base.{
  ℕ, zero, suc, ◌+◌, ◌≤◌, ◌≡◌, refl, ap, ◌∙◌, List, [], ◌∷◌, map, Bool, true, Option, none, some,
  All, arith, ◌==◌, if◌then◌else◌, ◌&&◌, not, Bool-cases, inl, inr,
}
use c_study.Signals.Process.{
  sigint, sigquit, sigterm, is_masked, Line, got_sigint, got_term, got_quit, unknown_signal, System,
  start, line_of, handle, Step, raise, read, read_fails, Reach, here, next,
}

-- The signal that a line reports.
unfoldable pub signo_of : Line → ℕ
signo_of got_sigint = sigint
signo_of got_term = sigterm
signo_of got_quit = sigquit
signo_of (unknown_signal signo) = signo

unfoldable pub times : ℕ → List ℕ → ℕ
times n [] = 0
times n (k ∷ ks) = if n == k then suc (times n ks) else times n ks

abbrev pub IsKnown : Line → Type 0
IsKnown (unknown_signal signo) = ⊥
IsKnown _ = Unit {0}

-- The loop goes on and no SIGQUIT was read, or it has ended by the first SIGQUIT, or by an error.
abbrev pub Ending : List Line → Option ℕ → Type 0
Ending lines none = times sigquit (map signo_of lines) ≡ 0
Ending [] (some zero) = ⊥
Ending (line ∷ lines) (some zero) = (line ≡ got_quit) × (times sigquit (map signo_of lines) ≡ 0)
Ending lines (some (suc zero)) = times sigquit (map signo_of lines) ≡ 0
Ending lines (some (suc (suc k))) = ⊥

abbrev one_if : Bool → ℕ
one_if b = if b then 1 else 0

record Told (s : System) : Type 0 where
  each : (n : ℕ) → times n (map signo_of s.printed) + one_if (s.pending n) ≤ times n s.raised
  masked : (n : ℕ) → s.pending n ≡ true → is_masked n ≡ true
  known : All IsKnown s.printed
  ending : Ending s.printed s.ended

signo_of-line_of : (signo : ℕ) → is_masked signo ≡ true → signo_of (line_of signo) ≡ signo
unfolding signo_of line_of is_masked
signo_of-line_of signo h = ground arith

line_of-IsKnown : (signo : ℕ) → is_masked signo ≡ true → IsKnown (line_of signo)
unfolding line_of is_masked
line_of-IsKnown signo h = ground arith

line_of-Ending :
    (signo : ℕ) (lines : List Line)
    → is_masked signo ≡ true
    → times sigquit (map signo_of lines) ≡ 0
    → Ending (line_of signo ∷ lines) (if signo == sigquit then some 0 else none)
unfolding times line_of is_masked signo_of
line_of-Ending signo lines h quiet = ground arith

-- The signal that is read is not pending any more.
each_left :
    (signo n : ℕ) (s : System)
    → times n (map signo_of s.printed) + one_if (s.pending n) ≤ times n s.raised
    → s.pending signo ≡ true
    → times n (signo ∷ map signo_of s.printed) + one_if (s.pending n && not (n == signo))
      ≤ times n s.raised
unfolding times
each_left signo n s h p = elim (Bool-cases (n == signo)) [
  | inl e ↦
      let same : n ≡ signo = ground arith in
      let pending : s.pending n ≡ true = ap s.pending same ∙ p in ground arith
  | inr e ↦ ground arith
]

start-Told : Told start
unfolding times
start-Told = record { each = λ n. omega arith; masked = λ n h. cc; known = tt; ending = refl }

Step-Told : {s t : System} → Told s → Step s t → Told t
unfolding times handle
Step-Told {s} v (raise signo h) = record {
  each = λ n. ground (arith, v.each n);
  masked = λ n q. ground (arith, v.masked n);
  known = v.known;
  ending = v.ending;
}
Step-Told {s} v (read signo e p) = record {
  each = λ n. rw (signo_of-line_of signo (v.masked signo p)) (each_left signo n s (v.each n) p);
  masked = λ n q. ground (arith, v.masked n);
  known = (line_of-IsKnown signo (v.masked signo p), v.known);
  ending = line_of-Ending signo s.printed (v.masked signo p) (subst (Ending s.printed) e v.ending);
}
Step-Told {s} v (read_fails e) = record {
  each = v.each;
  masked = v.masked;
  known = v.known;
  ending = subst (Ending s.printed) e v.ending;
}

Reach-Told : {s : System} → Reach s → Told s
Reach-Told here = start-Told
Reach-Told (next r step) = Step-Told (Reach-Told r) step

-- In every reachable state the process has printed no more lines for a signal than that signal was raised,
-- no line for an unknown signal, and no more than one line for SIGQUIT: it has ended with 0 just after that
-- line, or it goes on or has ended with 1 without one.
pub printed-raised :
    {s : System}
    → Reach s
    → ((signo : ℕ) → times signo (map signo_of s.printed) ≤ times signo s.raised)
      × All IsKnown s.printed
      × Ending s.printed s.ended
printed-raised {s} r =
    let v = Reach-Told r in (λ signo. omega (arith, v.each signo), v.known, v.ending)
