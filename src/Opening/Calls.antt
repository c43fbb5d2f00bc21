-- ===== src/Opening/Calls.antt =====
-- The beginnings of `main` of tcp_server_chat01/main.c, multi_thread_server01/server.c, prefork_server01/main.c
-- v6_upcase_echo/server.c and send_fd_unix_socket/server.c, and of the clients of the second and the last, which make the socket. What the calls give is an argument.
use c_study.Base.{ℕ, Bool, Option, none, some, if◌then◌else◌}

-- What `socket` gives, with `none` for -1, and whether the other calls succeed.
pub record Calls : Type 0 where
  pub socket : Option ℕ
  pub setsockopt : Bool
  pub bind : Bool
  pub listen : Bool

pub data Opened : Type 0 where
  stopped : (status : ℕ) → Opened
  opened : (sock : ℕ) → Opened

-- The status of `return -1`
abbrev pub minus_one : ℕ
minus_one = 255

-- A call whose failure ends the program.
unfoldable pub after_call : ℕ → Bool → Opened → Opened
after_call status ok rest = if ok then rest else stopped status

-- `socket`, and what follows it.
unfoldable pub after_socket : ℕ → Option ℕ → (ℕ → Opened) → Opened
after_socket status none rest = stopped status
after_socket status (some sock) rest = rest sock

unfoldable pub open_chat : Calls → Opened
unfolding after_socket after_call
open_chat c = after_socket 1 c.socket (λ server_sock.
    after_call 1 c.setsockopt (after_call 1 c.bind (after_call 1 c.listen (opened server_sock))))

-- With whether pthread_attr_init and pthread_attr_setdetachstate succeed.
unfoldable pub open_threads : Calls → (init detach : Bool) → Opened
unfolding after_socket after_call
open_threads c init detach = after_socket 1 c.socket (λ sock. after_call 1 c.setsockopt (
    after_call 1 c.bind
      (after_call 1 c.listen (after_call 1 init (after_call 1 detach (opened sock))))))

unfoldable pub open_prefork : Calls → Opened
unfolding after_socket after_call
open_prefork c = after_socket minus_one c.socket (λ sock.
    after_call minus_one c.setsockopt
      (after_call minus_one c.bind (after_call minus_one c.listen (opened sock))))

-- A datagram socket, which needs no `listen`.
unfoldable pub open_upcase : Calls → Opened
unfolding after_socket after_call
open_upcase c = after_socket minus_one c.socket (λ sock. after_call minus_one c.bind (opened sock))

-- send_fd_unix_socket/server.c sets no option.
unfoldable pub open_passing : Calls → Opened
unfolding after_socket after_call
open_passing c =
    after_socket 1 c.socket (λ sock. after_call 1 c.bind (after_call 1 c.listen (opened sock)))

-- multi_thread_server01/client.c and send_fd_unix_socket/client.c, with whether `connect` succeeds.
unfoldable pub open_client : Option ℕ → Bool → Opened
unfolding after_socket after_call
open_client socket connect = after_socket 1 socket (λ sock. after_call 1 connect (opened sock))
