-- ===== src/Signals/Process.antt =====
-- signalfd01/main.c, with the signals that the kernel keeps for the process. The blocked signals are the only
-- ones that are raised here: any other one does not reach the descriptor. A signal that is pending already is
-- not kept a second time, and which of the pending ones `read` gives is left open.
use c_study.Base.{
  ℕ, ◌≡◌, List, [], ◌∷◌, Bool, true, false, Option, none, some, ◌==◌, ◌&&◌, ◌||◌, not,
  if◌then◌else◌,
}

abbrev pub sigint : ℕ
sigint = 2

abbrev pub sigquit : ℕ
sigquit = 3

abbrev pub sigterm : ℕ
sigterm = 15

-- `mask`
unfoldable pub is_masked : ℕ → Bool
is_masked signo = signo == sigint || (signo == sigquit || signo == sigterm)

-- The lines that the loop prints.
pub data Line : Type 0 where
  got_sigint got_term got_quit : Line
  unknown_signal : (signo : ℕ) → Line

-- `pending` and `raised` are the kernel's, the second only a record of what was raised; the lists have the
-- latest first. `ended` is the status of `main`.
pub record System : Type 0 where
  pub pending : ℕ → Bool
  pub raised : List ℕ
  pub printed : List Line
  pub ended : Option ℕ

-- After `signalfd`.
abbrev pub start : System
start = record { pending = λ signo. false; raised = []; printed = []; ended = none }

-- The line for a signal.
unfoldable pub line_of : ℕ → Line
line_of signo =
    if signo == sigint
    then got_sigint
    else (if signo == sigterm
        then got_term
        else (if signo == sigquit then got_quit else unknown_signal signo))

-- The `switch`.
unfoldable pub handle : ℕ → System → System
unfolding line_of
handle signo s = record s {
  printed = line_of signo ∷ s.printed;
  ended = if signo == sigquit then some 0 else none;
}

pub data Step (s : System) : System → Type 0 where
  raise :
      (signo : ℕ)
      → is_masked signo ≡ true
      → Step s (record s { pending = λ k. s.pending k || k == signo; raised = signo ∷ s.raised })
  read :
      (signo : ℕ)
      → s.ended ≡ none
      → s.pending signo ≡ true
      → Step s (handle signo (record s { pending = λ k. s.pending k && not (k == signo) }))
  read_fails : s.ended ≡ none → Step s (record s { ended = some 1 })

pub data Reach : System → Type 0 where
  here : Reach start
  next : {s t : System} → Reach s → Step s t → Reach t
