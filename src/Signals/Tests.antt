-- ===== src/Signals/Tests.antt =====
-- A run of signalfd01: SIGINT is raised twice before the first `read`, then SIGQUIT.
use c_study.Base.{ℕ, ◌≤◌, ◌≡◌, refl, [], ◌∷◌, map, All, some}
use c_study.Signals.Process.{
  sigint, sigquit, is_masked, got_sigint, got_quit, unknown_signal, System, line_of, handle, raise,
  read, Reach, here, next,
}
use c_study.Signals.Lines.{signo_of, times, IsKnown, Ending, printed-raised}

abbrev quit : (s : System) × Reach s
unfolding is_masked handle line_of
quit = (
  _,
  next
      (next (next (next (next here (raise sigint refl)) (raise sigint refl)) (raise sigquit refl))
        (read sigint refl refl))
      (read sigquit refl refl),
)

quit_runs : (quit.0.printed ≡ got_quit ∷ got_sigint ∷ []) × (quit.0.ended ≡ some 0)
unfolding quit
quit_runs = (refl, refl)

-- A signal outside of the mask would get the last line of the `switch`.
unknown_runs : line_of 1 ≡ unknown_signal 1
unfolding line_of
unknown_runs = refl

printed-raised_example :
    ((signo : ℕ) → times signo (map signo_of quit.0.printed) ≤ times signo quit.0.raised)
    × All IsKnown quit.0.printed
    × Ending quit.0.printed quit.0.ended
printed-raised_example = printed-raised quit.1
