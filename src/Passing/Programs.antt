-- ===== src/Passing/Programs.antt =====
-- send_fd_unix_socket/server.c and client.c. What `accept`, `open` and `sendmsg` give the server in a round
-- is an argument, and so is what the client of that round gets from its calls.
use c_study.Base.{ℕ, List, [], ◌∷◌, ◌++◌, Bool, true, false, Option, none, some, if◌then◌else◌}
use c_study.Opening.Calls.{Calls, stopped, opened, open_passing}

abbrev pub Bytes : Type 0
Bytes = List ℕ

-- `"hello world\n"`
abbrev pub hello : Bytes
hello = b'h' ∷ b'e' ∷ b'l' ∷ b'l' ∷ b'o' ∷ b' ' ∷ b'w' ∷ b'o' ∷ b'r' ∷ b'l' ∷ b'd' ∷ 10 ∷ []

-- What `sendmsg` sends: one byte, and a descriptor in its control header.
pub record Message : Type 0 where
  pub byte : ℕ
  pub fd : ℕ

-- do_sendmsg of server.c, with whether `sendmsg` succeeds; `none` is -1.
unfoldable pub do_sendmsg : Bool → ℕ → Option Message
do_sendmsg sent fd = if sent then some (record { byte = b'!'; fd = fd }) else none

-- What the calls of a client give: whether `socket` and `connect` succeed, and whether `recvmsg` does.
pub record Client : Type 0 where
  pub connected : Bool
  pub received : Bool

-- do_recvmsg of client.c: what it adds to the file that it was handed, or `none` for -1. The file is open for
-- appending, and its `write` is taken to succeed.
unfoldable pub do_recvmsg : Bool → Option Bytes
do_recvmsg received = if received then some hello else none

-- `main` of client.c: the status, and what it adds to the file.
pub record Wrote : Type 0 where
  pub status : ℕ
  pub added : Bytes

unfoldable pub client_main : Client → Wrote
unfolding do_recvmsg
client_main c =
    if c.connected
    then elim (do_recvmsg c.received) [
      | none ↦ record { status = 1; added = [] }
      | some added ↦ record { status = 0; added = added }
    ]
    else record { status = 1; added = [] }

-- One round of the server: the descriptors of `accept` and `open`, with `none` for -1, whether `sendmsg`
-- succeeds, and the client that connects.
pub record Round : Type 0 where
  pub accepted : Option ℕ
  pub opened : Option ℕ
  pub sent : Bool
  pub client : Client

-- The descriptors that the server has, those that it has handed over, the file, and whether it has ended,
-- which it does with the status 1.
pub record Server : Type 0 where
  pub held : List ℕ
  pub handed : List ℕ
  pub text : Bytes
  pub ended : Bool

-- The body of the loop from `open` on.
unfoldable pub hand_over : Server → Round → Server
unfolding do_sendmsg client_main
hand_over s r = elim r.opened [
  | none ↦ record s { ended = true }
  | some fd ↦ elim (do_sendmsg r.sent fd) [
    | none ↦ record s { held = fd ∷ s.held; ended = true }
    | some message ↦ record s {
      held = fd ∷ s.held;
      handed = message.fd ∷ s.handed;
      text = s.text ++ (client_main r.client).added;
    }
  ]
]

-- The body of the loop.
unfoldable pub round : Server → Round → Server
unfolding hand_over
round s r = elim r.accepted [
  | none ↦ record s { ended = true }
  | some client ↦ hand_over (record s { held = client ∷ s.held }) r
]

-- When the loop begins, the server has the listening socket and its standard descriptors. `open` keeps what
-- the file holds, nothing if there is none.
abbrev pub start : List ℕ → Bytes → Server
start held file = record { held = held; handed = []; text = file; ended = false }

-- The loop, which ends when a call has failed.
unfoldable pub serve_rounds : List Round → Server → Server
unfolding round
serve_rounds [] s = s
serve_rounds (r ∷ rounds) s =
    let rest = serve_rounds rounds (round s r) in if s.ended then s else rest

-- `main` of server.c in a process with these descriptors, and with this file.
unfoldable pub server_main : Calls → List ℕ → Bytes → List Round → Server
unfolding open_passing serve_rounds
server_main calls held file rounds = elim (open_passing calls) [
  | stopped status ↦ record (start held file) { ended = true }
  | opened sock ↦ serve_rounds rounds (start (sock ∷ held) file)
]
