-- ===== src/Echo/Accept.antt =====
-- multi_thread_server01/server.c, `main`: the port, the socket, and the loop over `accept`.
use c_study.Base.{ℕ, ◌-◌, ◌%◌, ◌^◌, Option, none, some, List, [], ◌∷◌, Bool, true, false}
use c_study.Base.Int.{ℤ, pos, negsuc}
use c_study.Opening.Calls.{Calls, stopped, opened, open_threads}
use c_study.Filters.Input.{Bytes}
use c_study.Echo.Connection.{Exchange, handler}

-- What one round gets: -1 of `accept`, or a socket, whether pthread_create succeeds, and what the calls of
-- handler on this socket give.
pub data Arrival : Type 0 where
  refused : Arrival
  accepted : (sock : ℕ) → (created : Bool) → (calls : List Exchange) → Arrival

-- What a client got from its thread.
pub record Echoed : Type 0 where
  pub sock : ℕ
  pub bytes : Bytes

-- When all threads have ended: what they sent, and the sockets that are not closed.
pub record Threads : Type 0 where
  pub ended : List Echoed
  pub left_open : List ℕ

unfoldable pub accept_loop : (ℕ → ℕ) → List Arrival → Threads
unfolding handler
accept_loop toupper [] = record { ended = []; left_open = [] }
accept_loop toupper (refused ∷ arrivals) = accept_loop toupper arrivals
accept_loop toupper (accepted sock true calls ∷ arrivals) =
    let rest = accept_loop toupper arrivals in
    record rest { ended = (record { sock = sock; bytes = handler toupper calls }) ∷ rest.ended }
accept_loop toupper (accepted sock false calls ∷ arrivals) =
    let rest = accept_loop toupper arrivals in record rest { left_open = sock ∷ rest.left_open }

-- DEFAULT_PORT
abbrev pub default_port : ℕ
default_port = 48392

-- `(uint16_t)atoi(argv[1])`, of what `atoi` gives; without an argument the default.
unfoldable pub port_of : Option ℤ → ℕ
port_of none = default_port
port_of (some (pos n)) = n % 2 ^ 16
port_of (some (negsuc n)) = 2 ^ 16 - 1 - n % 2 ^ 16

-- `main`; `none` is `return 1` before the loop.
unfoldable pub threads_main : (ℕ → ℕ) → Calls → (init detach : Bool) → List Arrival → Option Threads
unfolding open_threads accept_loop
threads_main toupper calls init detach arrivals = elim (open_threads calls init detach) [
  | stopped status ↦ none
  | opened sock ↦ some (accept_loop toupper arrivals)
]
