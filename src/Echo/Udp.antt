-- ===== src/Echo/Udp.antt =====
-- v6_upcase_echo/client.c: the loop over the messages, alone and with the server.
use mathlib.Core.List.{append-nil}
use c_study.Base.{
  ℕ, ◌≡◌, refl, ap, ◌∙◌, sym, List, [], ◌∷◌, Bool, true, false, Option, none, some, map, take,
  take_all, length-take, length-map, length, ◌==◌, if◌then◌else◌, arith,
}
use c_study.Filters.Input.{Bytes}
use c_study.Echo.Datagram.{Datagram, Served, Round, got, serve, answer, buffer_size, serve-answer}

-- What `sendto` and `recvfrom` give for one message, with `none` for -1.
pub record Calls : Type 0 where
  pub sent : Option ℕ
  pub reply : Option Bytes

-- The responses that are printed, and the status.
pub record Client : Type 0 where
  pub responses : List Bytes
  pub failed : Bool

abbrev pub stop : Client
stop = record { responses = []; failed = true }

unfoldable pub receive : Option Bytes → Client → Client
receive none rest = stop
receive (some reply) rest = record rest { responses = take buffer_size reply ∷ rest.responses }

unfoldable pub client : (Bytes → Calls) → List Bytes → Client
unfolding receive
client calls [] = record { responses = []; failed = false }
client calls (message ∷ messages) =
    let rest = receive (calls message).reply (client calls messages) in
    elim (calls message).sent [ none ↦ stop | some n ↦ if n == length message then rest else stop ]

-- A network that loses nothing, with the server at its other end.
abbrev pub through : (ℕ → ℕ) → ℕ → Bytes → Calls
through toupper address message = record {
  sent = some (length message);
  reply = some (answer toupper (record { client = address; bytes = message })).bytes;
}

-- What the server gets of these messages.
abbrev pub datagrams : ℕ → List Bytes → List Datagram
datagrams address = map (λ m. record { client = address; bytes = m })

abbrev pub rounds : ℕ → List Bytes → List Round
rounds address messages = map (λ d. got d true) (datagrams address messages)

-- The first 32 bytes in upper case.
abbrev pub upper : (ℕ → ℕ) → Bytes → Bytes
upper toupper message = map toupper (take buffer_size message)

take-upper :
    (toupper : ℕ → ℕ) (message : Bytes)
    → take buffer_size (upper toupper message) ≡ upper toupper message
take-upper toupper message =
    take_all (upper toupper message) buffer_size (
      omega (arith, length-map toupper (take buffer_size message), length-take buffer_size message))

client-upper :
    (toupper : ℕ → ℕ) (address : ℕ) (messages : List Bytes)
    → client (through toupper address) messages
      ≡ record { responses = map (upper toupper) messages; failed = false }
unfolding client receive
client-upper toupper address [] = refl
client-upper toupper address (message ∷ messages) =
    let same : (length message == length message) ≡ true = ground arith in
    rw same (
      rw (client-upper toupper address messages) (
        ap (λ (r : Bytes). record { responses = r ∷ map (upper toupper) messages; failed = false })
          (take-upper toupper message)))

answers-upper :
    (toupper : ℕ → ℕ) (address : ℕ) (messages : List Bytes)
    → map (λ d. d.bytes) (map (answer toupper) (datagrams address messages))
      ≡ map (upper toupper) messages
answers-upper toupper address [] = refl
answers-upper toupper address (message ∷ messages) =
    ap (◌∷◌ (upper toupper message)) (answers-upper toupper address messages)

serve-upper :
    (toupper : ℕ → ℕ) (address : ℕ) (messages : List Bytes)
    → map (λ d. d.bytes) (serve toupper (rounds address messages)).answers
      ≡ map (upper toupper) messages
unfolding serve
serve-upper toupper address messages =
    let ds = datagrams address messages in
    ap (λ l. map (λ (d : Datagram). d.bytes) (serve toupper l).answers)
      (sym (append-nil (rounds address messages)))
    ∙ ap (λ (r : Served). map (λ (d : Datagram). d.bytes) r.answers) (serve-answer toupper ds [])
    ∙ ap (map (λ (d : Datagram). d.bytes)) (append-nil (map (answer toupper) ds))
    ∙ answers-upper toupper address messages

-- Over a network that loses nothing, the client gets an answer to every message: the answers are those that
-- the server gives to these datagrams, in their order, and each one is the first 32 bytes of its message in
-- upper case.
pub client-serve :
    (toupper : ℕ → ℕ) (address : ℕ) (messages : List Bytes)
    → ((client (through toupper address) messages).failed ≡ false)
      × ((client (through toupper address) messages).responses
          ≡ map (λ d. d.bytes) (serve toupper (rounds address messages)).answers)
      × ((client (through toupper address) messages).responses ≡ map (upper toupper) messages)
client-serve toupper address messages =
    let c = client-upper toupper address messages in
    (
      ap (λ (r : Client). r.failed) c,
      ap (λ (r : Client). r.responses) c ∙ sym (serve-upper toupper address messages),
      ap (λ (r : Client). r.responses) c,
    )
