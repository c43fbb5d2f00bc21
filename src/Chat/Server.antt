-- ===== src/Chat/Server.antt =====
-- tcp_server_chat01/main.c from FD_ZERO on: the set of descriptors and the loop over it. What `select`,
-- `accept` and `recv` give in one round is an argument, and so is FD_SETSIZE. The
-- program ignores the result of `send`, but not the signal: it leaves SIGPIPE at its default.
use c_study.Base.{
  ℕ, zero, suc, ◌+◌, List, [], ◌∷◌, ◌++◌, Bool, false, Option, none, some, ◌&&◌, ◌||◌, not, ltb,
  leb, ◌==◌, if◌then◌else◌,
}

abbrev pub Bytes : Type 0
Bytes = List ℕ

abbrev pub FdSet : Type 0
FdSet = ℕ → Bool

-- FD_SET and FD_CLR
abbrev pub fd_set : FdSet → ℕ → FdSet
fd_set fds fd k = fds k || k == fd

abbrev pub fd_clr : FdSet → ℕ → FdSet
fd_clr fds fd k = fds k && not (k == fd)

-- One call of `send`.
pub record Message : Type 0 where
  pub receiver : ℕ
  pub bytes : Bytes

-- The variables of `main`, with what was sent and what was closed so far.
pub record Server : Type 0 where
  pub server_sock : ℕ
  pub master : FdSet
  pub max_fd : ℕ
  pub sent : List Message
  pub closed : List ℕ

-- What the calls of one round give: the set that `select` leaves, the socket of `accept` with `none` for
-- -1, for each descriptor the bytes of `recv` with `none` for -1, and the descriptors to which a `send` raises
-- SIGPIPE, since their client is gone.
pub record Round : Type 0 where
  pub reads : FdSet
  pub accepted : Option ℕ
  pub received : ℕ → Option Bytes
  pub broken : FdSet

pub data Selected : Type 0 where
  failed : Selected
  ready : Round → Selected

pub data Served : Type 0 where
  unfinished : Served  -- out of fuel
  overrun : Served  -- FD_SET outside of the set
  returned : Served  -- `return 1`
  killed : Served  -- by SIGPIPE
  running : Server → Served

abbrev pub start : ℕ → Server
start server_sock = record {
  server_sock = server_sock;
  master = λ k. k == server_sock;
  max_fd = server_sock;
  sent = [];
  closed = [];
}

unfoldable pub accept_client : ℕ → Server → Option ℕ → Served
accept_client setsize s none = returned
accept_client setsize s (some client_sock) =
    if ltb client_sock setsize
    then running (record s {
      master = fd_set s.master client_sock;
      max_fd = if ltb s.max_fd client_sock then client_sock else s.max_fd;
    })
    else overrun

-- The loop over the receivers `j`, of which `rounds` are left.
unfoldable pub send_loop : ℕ → ℕ → Server → ℕ → Bytes → List Message
send_loop zero j s i buf = []
send_loop (suc rounds) j s i buf =
    let rest = send_loop rounds (j + 1) s i buf in
    if s.master j && not (j == s.server_sock || j == i)
    then (record { receiver = j; bytes = buf }) ∷ rest
    else rest

-- Whether this loop comes to a receiver that is broken.
unfoldable pub breaks : ℕ → ℕ → Server → ℕ → FdSet → Bool
breaks zero j s i broken = false
breaks (suc rounds) j s i broken =
    s.master j && not (j == s.server_sock || j == i) && broken j || breaks rounds (j + 1) s i broken

unfoldable pub receive : Server → ℕ → FdSet → Option Bytes → Served
unfolding send_loop breaks
receive s i broken none =
    running (record s { master = fd_clr s.master i; closed = s.closed ++ i ∷ [] })
receive s i broken (some buf) =
    if breaks s.max_fd 1 s i broken
    then killed
    else running (record s { sent = s.sent ++ send_loop s.max_fd 1 s i buf })

-- The body of the loop over `i`.
unfoldable pub handle : ℕ → Round → ℕ → Server → Served
unfolding accept_client receive
handle setsize r i s =
    if r.reads i
    then (if i == s.server_sock
        then accept_client setsize s r.accepted
        else receive s i r.broken (r.received i))
    else running s

unfoldable pub visit : ℕ → ℕ → Round → ℕ → Server → Served
unfolding handle
visit setsize zero r i s = unfinished
visit setsize (suc fuel) r i s =
    if leb i s.max_fd
    then elim (handle setsize r i s) [
      | unfinished ↦ unfinished
      | overrun ↦ overrun
      | returned ↦ returned
      | killed ↦ killed
      | running s' ↦ visit setsize fuel r (i + 1) s'
    ]
    else running s

-- One round of the loop of `main`.
unfoldable pub serve : ℕ → Selected → Server → Served
unfolding visit
serve setsize failed s = returned
serve setsize (ready r) s = visit setsize setsize r 1 s
