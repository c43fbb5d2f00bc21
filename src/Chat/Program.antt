-- ===== src/Chat/Program.antt =====
-- tcp_server_chat01/main.c, `main`: the socket, and the rounds.
use c_study.Base.{ℕ, ◌≡◌, List, [], ◌∷◌, ◌++◌, ltb, if◌then◌else◌}
use c_study.Opening.Calls.{Calls, stopped, opened, open_chat}
use c_study.Chat.Server.{
  Bytes, Server, Round, Selected, ready, Served, unfinished, overrun, returned, killed, running,
  serve, start,
}
use c_study.Chat.Inbox.{heard}
use c_study.Chat.Handle.{IsPossible}

-- The loop of `main`, over what its calls of `select` give.
unfoldable pub serve_all : ℕ → List Selected → Server → Served
serve_all setsize [] s = running s
serve_all setsize (selected ∷ later) s = elim (serve setsize selected s) [
  | unfinished ↦ unfinished
  | overrun ↦ overrun
  | returned ↦ returned
  | killed ↦ killed
  | running t ↦ serve_all setsize later t
]

-- FD_SET of the listening socket, and the loop.
unfoldable pub watch : ℕ → ℕ → List Selected → Served
unfolding serve_all
watch setsize server_sock selected =
    if ltb server_sock setsize then serve_all setsize selected (start server_sock) else overrun

unfoldable pub chat_main : ℕ → Calls → List Selected → Served
unfolding open_chat watch
chat_main setsize calls selected = elim (open_chat calls) [
  | stopped status ↦ returned
  | opened server_sock ↦ watch setsize server_sock selected
]

-- Possible rounds that lead from one state to another.
pub data Rounds (setsize : ℕ) : Server → List Round → Server → Type 0 where
  stay : {s : Server} → Rounds setsize s [] s
  go :
      {s t u : Server} {r : Round} {rs : List Round}
      → IsPossible setsize s r
      → serve setsize (ready r) s ≡ running t
      → Rounds setsize t rs u
      → Rounds setsize s (r ∷ rs) u

-- What `j` gets to hear in these rounds.
unfoldable pub heard_all : ℕ → ℕ → ℕ → List Round → List Bytes
heard_all setsize server_sock j [] = []
heard_all setsize server_sock j (r ∷ rs) =
    heard setsize 1 r server_sock j ++ heard_all setsize server_sock j rs
