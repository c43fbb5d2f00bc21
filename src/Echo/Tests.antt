-- ===== src/Echo/Tests.antt =====
-- The echo servers on short connections.
use c_study.Base.{
  true, length, ℕ, ◌-◌, ◌≡◌, refl, List, [], ◌∷◌, false, none, some, map, All, leb, ◌&&◌,
  if◌then◌else◌, arith,
}
use c_study.Filters.Input.{Bytes, eintr, failure, got, content}
use c_study.Echo.Connection.{Exchange, exchange, sent, handler, reply, serve_client, IsWhole}
use c_study.Base.Threads.{replicate}
use c_study.Echo.Datagram
use c_study.Echo.Udp
use c_study.Echo.Tcp
use c_study.Echo.Accept
use c_study.Echo.Datagram.{answer}
use c_study.Opening.Calls.{open_threads, open_upcase}
use c_study.Echo.Family.{prefork_main, served, prefork_main-served}
use c_study.Echo.Prefork.{child}
use c_study.Base.Int.{pos, negsuc}

abbrev to_upper : ℕ → ℕ
to_upper c = if leb b'a' c && leb c b'z' then c - 32 else c

program : Unit {0}
unfolding sent handler reply serve_client child content
program = tt

-- `ab`, an interrupted read, `c`.
abbrev pieces : List Exchange
pieces =
    exchange (got (b'a' ∷ b'b' ∷ [])) (some 2)
    ∷ exchange eintr none
    ∷ exchange (got (b'c' ∷ [])) (some 1)
    ∷ []

abbrev upper : Bytes
upper = b'A' ∷ b'B' ∷ b'C' ∷ []

-- The second client is gone before the answer, and the third is not served.
abbrev gone : List Exchange
gone = exchange (got (b'd' ∷ [])) none ∷ []

child_runs :
    child to_upper (some pieces ∷ some gone ∷ some pieces ∷ [])
    ≡ record { echoed = upper ∷ [] ∷ []; waiting = false }
unfolding program
child_runs = refl

-- handler ends the connection at an interrupted call.
handler_runs : handler to_upper pieces ≡ b'A' ∷ b'B' ∷ []
unfolding program
handler_runs = refl

-- Ten times the same client.
abbrev ten : List (List (List Exchange))
ten = let g = pieces ∷ [] in g ∷ g ∷ g ∷ g ∷ g ∷ g ∷ g ∷ g ∷ g ∷ g ∷ []

prefork_main-served_example :
    prefork_main to_upper
      (record { socket = some 3; setsockopt = true; bind = true; listen = true })
      (map (λ g. some (map some g)) ten)
    ≡ record { children = map (served to_upper) ten; status = none }
prefork_main-served_example =
    let whole : All IsWhole pieces = ((2, refl, omega arith), (tt, ((1, refl, omega arith), tt))) in
    let w : All (All IsWhole) (pieces ∷ []) = (whole, tt) in
    prefork_main-served to_upper 3 ten (w, (w, (w, (w, (w, (w, (w, (w, (w, (w, tt)))))))))) refl

-- The first answer is cut, the second read fails.
abbrev cut : List Exchange
cut = exchange (got (b'a' ∷ b'b' ∷ [])) (some 1) ∷ exchange failure (some 0) ∷ []

cut_runs : handler to_upper cut ≡ (serve_client to_upper cut).echoed
unfolding program
cut_runs = refl

-- A datagram of 33 bytes loses its last one.
long_runs : length (answer to_upper (record { client = 1; bytes = replicate 33 b'a' })).bytes ≡ 32
long_runs = refl

datagrams_run :
    Datagram.serve to_upper
      (Datagram.got (record { client = 7; bytes = b'a' ∷ [] }) true ∷ Datagram.failed ∷ [])
    ≡ record { answers = record { client = 7; bytes = b'A' ∷ [] } ∷ []; waiting = false }
unfolding Datagram.serve
datagrams_run = refl

-- One message, and a client whose buffer held `vwxy` before its zero byte.
abbrev hi : Bytes
hi = b'h' ∷ b'i' ∷ []

abbrev garbage : Bytes
garbage = b'v' ∷ b'w' ∷ b'x' ∷ b'y' ∷ 0 ∷ []

-- `strcpy` of an argument of 256 bytes is a write behind the buffer.
long_argument_runs : Tcp.message (some (replicate 256 b'a')) [] ≡ none
unfolding Tcp.message
long_argument_runs = refl

client-serve_example :
    ((Udp.client (Udp.through to_upper 7) (hi ∷ [])).failed ≡ false)
    × ((Udp.client (Udp.through to_upper 7) (hi ∷ [])).responses
        ≡ map (λ d. d.bytes) (Datagram.serve to_upper (Udp.rounds 7 (hi ∷ []))).answers)
    × ((Udp.client (Udp.through to_upper 7) (hi ∷ [])).responses
        ≡ map (Udp.upper to_upper) (hi ∷ []))
client-serve_example = Udp.client-serve to_upper 7 (hi ∷ [])

refused_message_runs :
    Udp.client (λ m. record { sent = none; reply = none }) (hi ∷ [])
    ≡ record { responses = []; failed = true }
unfolding Udp.client
refused_message_runs = refl

-- The second client gets no thread.
accept_runs :
    Accept.accept_loop to_upper
      (Accept.accepted 4 true pieces ∷ Accept.refused ∷ Accept.accepted 5 false [] ∷ [])
    ≡ record { ended = record { sock = 4; bytes = b'A' ∷ b'B' ∷ [] } ∷ []; left_open = 5 ∷ [] }
unfolding Accept.accept_loop program
accept_runs = refl

-- The second client connects while no thread can be made.
threads_runs :
    Accept.threads_main to_upper
      (record { socket = some 3; setsockopt = true; bind = true; listen = true })
      true
      true
      (Accept.accepted 4 true pieces ∷ Accept.accepted 5 false pieces ∷ Accept.refused ∷ [])
    ≡ some (record {
      ended = (record { sock = 4; bytes = b'A' ∷ b'B' ∷ [] }) ∷ [];
      left_open = 5 ∷ [];
    })
unfolding Accept.threads_main open_threads program
threads_runs = refl

-- A port is taken modulo 2^16.
port_runs :
    (Accept.port_of (some (pos 65537)) ≡ 1)
    × (Accept.port_of (some (negsuc 0)) ≡ 65535)
    × (Accept.port_of none ≡ 48392)
unfolding Accept.port_of
port_runs = (refl, refl, refl)

-- Without a socket there is no answer.
upcase_runs :
    Datagram.upcase_main to_upper
      (record { socket = none; setsockopt = true; bind = true; listen = true })
      []
    ≡ record { answers = []; waiting = false }
unfolding Datagram.upcase_main open_upcase
upcase_runs = refl

-- The client prints the bytes behind the answer.
stale_runs :
    Tcp.talk garbage (some 2) (some (b'H' ∷ b'I' ∷ []))
    ≡ some (record { printed = b'H' ∷ b'I' ∷ b'x' ∷ b'y' ∷ []; status = 0 })
unfolding Tcp.talk Tcp.print Tcp.c_string
stale_runs = refl
