-- ===== src/Page.antt =====
-- HandsOnNetworkProgrammingWithC/tcp_server01/main.c: a server that sends one page to one client. What its
-- calls give is an argument.
mod Tests
use c_study.Base.{
  ℕ, zero, suc, ◌≤◌, ◌<◌, ◌≡◌, refl, ◌≢◌, ◌⊎◌, inl, inr, List, [], ◌∷◌, ◌++◌, Bool, true, false,
  Option, none, some, take, length, if◌then◌else◌, ◌==◌, arith,
}
use c_study.Base.Int.{ℤ, pos, negsuc}

abbrev pub Bytes : Type 0
Bytes = List ℕ

-- `none` stands for -1, but getaddrinfo gives one of many error numbers, or 0.
pub record Calls : Type 0 where
  pub getaddrinfo : ℤ
  pub socket : Option ℕ
  pub bind : Bool
  pub listen : Bool
  pub accept : Option ℕ
  pub recv : Option Bytes
  pub send : Option ℕ

-- A fault is a use of `bind_address`, which getaddrinfo did not set.
pub data Ended : Type 0 where
  fault : Ended
  -- the status, what the client got, and the sockets that were closed
  exited : (status : ℕ) → (page : Bytes) → (closed : List ℕ) → Ended

abbrev failed : Ended
failed = exited 1 [] []

-- `response`: the header lines, each with "\r\n", an empty line and the text.
abbrev pub response : Bytes
response =
    b'H' ∷ b'T' ∷ b'T' ∷ b'P' ∷ b'/' ∷ b'1' ∷ b'.' ∷ b'1' ∷ b' ' ∷ b'2' ∷ b'0' ∷ b'0' ∷ b' ' ∷ b'O'
    ∷ b'K' ∷ 13 ∷ 10 ∷ b'C' ∷ b'o' ∷ b'n' ∷ b'n' ∷ b'e' ∷ b'c' ∷ b't' ∷ b'i' ∷ b'o' ∷ b'n' ∷ b':'
    ∷ b' ' ∷ b'c' ∷ b'l' ∷ b'o' ∷ b's' ∷ b'e' ∷ 13 ∷ 10 ∷ b'C' ∷ b'o' ∷ b'n' ∷ b't' ∷ b'e' ∷ b'n'
    ∷ b't' ∷ b'-' ∷ b'T' ∷ b'y' ∷ b'p' ∷ b'e' ∷ b':' ∷ b' ' ∷ b't' ∷ b'e' ∷ b'x' ∷ b't' ∷ b'/'
    ∷ b'p' ∷ b'l' ∷ b'a' ∷ b'i' ∷ b'n' ∷ 13 ∷ 10 ∷ 13 ∷ 10 ∷ b'H' ∷ b'e' ∷ b'l' ∷ b'l' ∷ b'o' ∷ b' '
    ∷ b'W' ∷ b'o' ∷ b'r' ∷ b'l' ∷ b'd' ∷ 10 ∷ []

-- The page, and the end of `main`.
unfoldable pub respond : ℕ → ℕ → Option ℕ → Ended
respond server_sock client_sock none = failed
respond server_sock client_sock (some bytes_sent) =
    exited 0 (take bytes_sent response) (client_sock ∷ server_sock ∷ [])

-- `recv`; what it gives is not read.
unfoldable pub talk_to : ℕ → ℕ → Calls → Ended
unfolding respond
talk_to server_sock client_sock c = elim c.recv [
  | none ↦ failed
  | some request ↦ respond server_sock client_sock c.send
]

-- From `bind` to `accept`.
unfoldable pub listen_on : ℕ → Calls → Ended
unfolding talk_to
listen_on server_sock c =
    if c.bind
    then (if c.listen
        then elim c.accept [ none ↦ failed | some client_sock ↦ talk_to server_sock client_sock c ]
        else failed)
    else failed

-- From `socket` on, which reads `bind_address`.
unfoldable pub serve_page : Calls → Ended
unfolding listen_on
serve_page c = elim c.socket [ none ↦ failed | some server_sock ↦ listen_on server_sock c ]

unfoldable pub main : Calls → Ended
unfolding serve_page
main c = elim c.getaddrinfo [
  | pos zero ↦ serve_page c
  | pos (suc n) ↦ fault
  | negsuc zero ↦ failed
  | negsuc (suc n) ↦ fault
]
