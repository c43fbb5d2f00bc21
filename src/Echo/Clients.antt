-- ===== src/Echo/Clients.antt =====
-- `main` of multi_thread_server01/client.c and of v6_upcase_echo/client.c, from the arguments on.
use c_study.Base.{
  ℕ, ◌<◌, ◌≡◌, ◌≢◌, List, [], ◌∷◌, ◌++◌, Bool, true, Option, none, some, map, drop, length, All,
  ltb, ◌>>=◌, if◌then◌else◌, arith,
}
use c_study.Base.Int.{ℤ}
use c_study.Opening.Calls.{stopped, opened, open_client}
use c_study.Filters.Input.{Bytes}
use c_study.Echo.Accept.{port_of}
use c_study.Echo.Tcp.{Client, message, talk, c_string, buffer_size, reply_of, talk-handler}
use c_study.Echo.Udp
use c_study.Echo.Udp.{client, through, upper, client-serve}

-- What the arguments and the calls give: what `atoi` makes of the port, the message if it is an argument,
-- the standard input, the stale bytes of the buffer for the answer, `socket`, `connect` for a port, and
-- `write` and `recv` for a message.
pub record TcpCalls : Type 0 where
  pub port : Option ℤ
  pub arg : Option Bytes
  pub stdin : Bytes
  pub garbage : Bytes
  pub socket : Option ℕ
  pub connect : ℕ → Bool
  pub write : Bytes → Option ℕ
  pub recv : Bytes → Option Bytes

unfoldable pub tcp_main : TcpCalls → Option Client
unfolding open_client port_of message talk
tcp_main c = elim (open_client c.socket (c.connect (port_of c.port))) [
  | stopped status ↦ some (record { printed = []; status = status })
  | opened sock ↦ do buffer ← message c.arg c.stdin; talk c.garbage (c.write buffer) (c.recv buffer)
]

-- The client with its server: a message of 1 to 255 bytes that is an argument comes back in upper case.
tcp_main-upper :
    (toupper : ℕ → ℕ) (c : TcpCalls) (sock : ℕ) (m stale : Bytes)
    → c.socket ≡ some sock
    → c.connect (port_of c.port) ≡ true
    → c.arg ≡ some m
    → c.write m ≡ some (length m)
    → c.recv m ≡ some (reply_of toupper m)
    → m ≢ []
    → length m < buffer_size
    → All (λ b. toupper b ≢ 0) m
    → c_string (drop (length m) c.garbage) ≡ some stale
    → tcp_main c ≡ some (record { printed = map toupper m ++ stale; status = 0 })
unfolding tcp_main open_client message
tcp_main-upper toupper c sock m stale e f g h k some_byte small p q =
    let fits : ltb (length m) buffer_size ≡ true = ground arith in
    rw (e, f, g, tcp_main)
      (rw (fits, message) (rw (h, k) (talk-handler toupper c.garbage m stale some_byte small p q)))

-- With whether `inet_pton` takes the address.
unfoldable pub udp_main : Option ℕ → (Bytes → Bool) → (Bytes → Udp.Calls) → List Bytes → Udp.Client
unfolding client
udp_main socket inet_pton calls [] = Udp.stop
udp_main socket inet_pton calls (addr ∷ []) = Udp.stop
udp_main none inet_pton calls (addr ∷ message ∷ messages) = Udp.stop
udp_main (some sock) inet_pton calls (addr ∷ message ∷ messages) =
    if inet_pton addr then client calls (message ∷ messages) else Udp.stop

-- With a socket and a good address, every message gets its answer over a network that loses nothing.
udp_main-upper :
    (toupper : ℕ → ℕ) (inet_pton : Bytes → Bool) (sock address : ℕ) (addr m : Bytes)
    (ms : List Bytes)
    → inet_pton addr ≡ true
    → (udp_main (some sock) inet_pton (through toupper address) (addr ∷ m ∷ ms)).responses
      ≡ map (upper toupper) (m ∷ ms)
unfolding udp_main
udp_main-upper toupper inet_pton sock address addr m ms e =
    rw (e, udp_main) ((client-serve toupper address (m ∷ ms)).2)
