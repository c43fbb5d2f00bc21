-- ===== src/Uv/Tests.antt =====
-- The libuv server on short runs.
use c_study.Base.{
  ℕ, ◌+◌, ◌*◌, ◌-◌, ◌≡◌, refl, ◌⊎◌, List, [], ◌∷◌, true, none, some, ◌&&◌, leb, length, All,
  if◌then◌else◌,
}
use c_study.Uv.Server.{
  Server, start, eof, got, Event, connected, received, written, exited, running, release, free,
  connection_callback, alloc_buffer, is_readable, answer, read_callback, take_request,
  write_callback, handle, uv_run,
}
use c_study.Uv.Memory.{IsPossible, forgotten, answered, uv_run_lem}

program : Unit {0}
unfolding release free connection_callback alloc_buffer is_readable answer read_callback
    take_request write_callback handle uv_run forgotten answered
program = tt

abbrev to_upper : ℕ → ℕ
to_upper c = if leb b'a' c && leb c b'z' then c - 32 else c

-- A client connects, sends two bytes, gets them back, and leaves.
abbrev visit : List Event
visit =
    connected true (some 10)
    ∷ received 1 (got (b'h' ∷ b'i' ∷ [])) (some 11) (some 12) (some 13)
    ∷ written 0
    ∷ received 1 eof (some 14) none none
    ∷ []

-- The handle of the client and the last buffer stay allocated.
visit_runs :
    uv_run to_upper visit start
    ≡ running (record {
      live = 14 ∷ 10 ∷ [];
      pending = [];
      sent = (record { stream = 1; bytes = b'H' ∷ b'I' ∷ [] }) ∷ [];
    })
unfolding program
visit_runs = refl

no_memory_runs :
    uv_run to_upper (received 1 (got (b'h' ∷ [])) (some 11) (some 12) none ∷ []) start ≡ exited
unfolding program
no_memory_runs = refl

visit-IsPossible : All IsPossible visit
visit-IsPossible = (λ e. cc, (λ e. cc, (tt, (λ e. cc, tt))))

uv_run_lem_example :
    (uv_run to_upper visit start ≡ exited)
    ⊎ ((t : Server) × (uv_run to_upper visit start ≡ running t)
        × (length t.live ≡ forgotten visit + 2 * length t.pending)
        × (t.sent ≡ answered to_upper visit))
uv_run_lem_example = uv_run_lem to_upper visit visit-IsPossible
