-- ===== src/Echo/Datagram.antt =====
-- v6_upcase_echo/server.c: the loop over datagrams. `toupper` is an argument.
use c_study.Base.{ℕ, ◌≡◌, refl, ap, List, [], ◌∷◌, ◌++◌, Bool, true, false, map, take}
use c_study.Opening.Calls.{Calls, stopped, opened, open_upcase}
use c_study.Filters.Input.{Bytes}

pub record Datagram : Type 0 where
  pub client : ℕ
  pub bytes : Bytes

-- What one round gets: -1 of `recvfrom`, or a datagram with what becomes of the answer.
pub data Round : Type 0 where
  failed : Round
  got : (d : Datagram) → (answered : Bool) → Round

-- The answers, and whether the server still waits for datagrams.
pub record Served : Type 0 where
  pub answers : List Datagram
  pub waiting : Bool

abbrev pub buffer_size : ℕ
buffer_size = 32

-- The answer to a datagram, of which `recvfrom` leaves out what the buffer has no room for.
abbrev pub answer : (ℕ → ℕ) → Datagram → Datagram
answer toupper d = record d { bytes = map toupper (take buffer_size d.bytes) }

unfoldable pub serve : (ℕ → ℕ) → List Round → Served
serve toupper [] = record { answers = []; waiting = true }
serve toupper (failed ∷ rounds) = record { answers = []; waiting = false }
serve toupper (got d false ∷ rounds) = record { answers = []; waiting = false }
serve toupper (got d true ∷ rounds) =
    let rest = serve toupper rounds in record rest { answers = answer toupper d ∷ rest.answers }

-- Each datagram is answered to its sender, as long as no call fails.
pub serve-answer :
    (toupper : ℕ → ℕ) (ds : List Datagram) (later : List Round)
    → serve toupper (map (λ d. got d true) ds ++ later) ≡ record {
      answers = map (answer toupper) ds ++ (serve toupper later).answers;
      waiting = (serve toupper later).waiting;
    }
unfolding serve
serve-answer toupper [] later = refl
serve-answer toupper (d ∷ ds) later =
    ap (λ (rest : Served). record rest { answers = answer toupper d ∷ rest.answers })
      (serve-answer toupper ds later)

-- `main`: the socket, and the loop.
unfoldable pub upcase_main : (ℕ → ℕ) → Calls → List Round → Served
unfolding open_upcase serve
upcase_main toupper calls rounds = elim (open_upcase calls) [
  | stopped status ↦ record { answers = []; waiting = false }
  | opened sock ↦ serve toupper rounds
]
