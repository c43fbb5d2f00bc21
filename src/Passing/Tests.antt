-- ===== src/Passing/Tests.antt =====
-- A server with room for eight descriptors.
use c_study.Passing.Programs.{serve_rounds, server_main}
use c_study.Opening.Calls.{after_call, after_socket, open_passing}
use c_study.Base.{
  ℕ, ◌+◌, ◌*◌, ◌≤◌, ◌≡◌, refl, List, [], ◌∷◌, ◌++◌, true, false, none, some, length, arith,
}
use c_study.Passing.Programs.{hello, Round, Server, client_main, hand_over, round, start}
use c_study.Passing.Leak.{Reach, here, next, copies, served_bound}

program : Unit {0}
unfolding client_main hand_over round
program = tt

abbrev standard : List ℕ
standard = 3 ∷ 2 ∷ 1 ∷ 0 ∷ []

-- What an earlier run has left in the file.
abbrev old : List ℕ
old = b'x' ∷ []

-- A client that connects and gets its descriptor, and one that does not get it.
abbrev good : ℕ → ℕ → Round
good client fd = record {
  accepted = some client;
  opened = some fd;
  sent = true;
  client = record { connected = true; received = true };
}

abbrev deaf : ℕ → ℕ → Round
deaf client fd = record (good client fd) { client = record { connected = true; received = false } }

-- The third client finds no room.
abbrev refused : Round
refused = record (good 0 0) { accepted = none; opened = none }

abbrev full : (s : Server) × Reach 8 standard old s
unfolding program
full = (
  _,
  next {s = round (round (start standard old) (good 4 5)) (deaf 6 7)} refused
      (next {s = round (start standard old) (good 4 5)} (deaf 6 7)
        (next (good 4 5) here refl (record { accepts = omega arith; opens = omega arith })) refl
        (record { accepts = omega arith; opens = omega arith }))
      refl (record { accepts = tt; opens = tt }),
)

full_runs :
    (full.0.ended ≡ true) × (full.0.held ≡ 7 ∷ 6 ∷ 5 ∷ 4 ∷ standard) × (full.0.text ≡ old ++ hello)
unfolding full program
full_runs = (refl, refl, refl)

served_bound_example :
    (2 * length full.0.handed + length standard ≤ length full.0.held)
    × (length full.0.held ≤ 8)
    × ((n : ℕ) × (n ≤ length full.0.handed) × (full.0.text ≡ old ++ copies n))
served_bound_example = served_bound 8 standard old {s = full.0} (omega arith) full.1

opened_runs :
    (server_main
      (record { socket = some 3; setsockopt = true; bind = true; listen = true })
      (2 ∷ 1 ∷ 0 ∷ [])
      old
      (good 4 5 ∷ refused ∷ good 6 7 ∷ []))
    ≡ record { held = 5 ∷ 4 ∷ standard; handed = 5 ∷ []; text = old ++ hello; ended = true }
unfolding server_main open_passing after_socket after_call serve_rounds program
opened_runs = refl
