-- ===== src/Echo/Tcp.antt =====
-- multi_thread_server01/client.c from its buffer on, alone and with handler of the server.
use mathlib.Core.List.{append-nil}
use c_study.Base.{
  ℕ, zero, suc, ◌<◌, ◌≡◌, refl, ◌∙◌, [], ◌∷◌, ◌++◌, Option, none, some, map, take, drop, take_all,
  length-map, length, ltb, if◌then◌else◌, arith, ◌>>=◌, All, ◌≢◌,
}
use c_study.Filters.Input.{Bytes, got}
use c_study.Echo.Connection.{exchange, sent, handler}
use c_study.Command.Loop.{fgets, text_of, cut_last}

-- `char buffer[256]`, `char recv_buffer[256]`
abbrev pub buffer_size : ℕ
buffer_size = 256

-- What stands in `buffer` up to its zero byte: the second argument, or the line of `fgets` without its last
-- byte. `none` is a write outside of the buffer, or `strlen` of a buffer that `fgets` did not write.
unfoldable pub message : Option Bytes → Bytes → Option Bytes
unfolding fgets text_of cut_last
message (some arg) stdin = if ltb (length arg) buffer_size then some arg else none
message none stdin = do line ← fgets stdin; cut_last (text_of line.buffer)

-- What the program prints last, and its status.
pub record Client : Type 0 where
  pub printed : Bytes
  pub status : ℕ

-- The bytes up to the first zero byte, with `none` where a buffer has none and a read goes on behind it.
unfoldable pub c_string : Bytes → Option Bytes
c_string [] = none
c_string (zero ∷ s) = some []
c_string (suc c ∷ s) = elim (c_string s) [ none ↦ none | some t ↦ some (suc c ∷ t) ]

-- `printf("%s\n", recv_buffer)` after a `recv` that stored `reply` over the bytes `garbage` that the buffer
-- held before; `none` is a read behind the buffer.
unfoldable pub print : Bytes → Bytes → Option Client
unfolding c_string
print garbage reply = do
  text ← c_string (take buffer_size reply ++ drop (length reply) garbage)
  some (record { printed = text; status = 0 })

-- The program from `write` on, with what `write` and `recv` give and `none` for -1.
unfoldable pub talk : Bytes → Option ℕ → Option Bytes → Option Client
unfolding print
talk garbage none reply = some (record { printed = []; status = 1 })
talk garbage (some n) none = some (record { printed = []; status = 1 })
talk garbage (some n) (some reply) = print garbage reply

-- What handler sends back when one `recv` gives it all of `m`.
abbrev pub reply_of : (ℕ → ℕ) → Bytes → Bytes
reply_of toupper m = handler toupper (exchange (got m) (some (length m)) ∷ [])

reply_of-upper : (toupper : ℕ → ℕ) (m : Bytes) → reply_of toupper m ≡ map toupper m
unfolding handler sent
reply_of-upper toupper [] = refl
reply_of-upper toupper (c ∷ m) =
    append-nil _
    ∙ take_all (map toupper (c ∷ m)) (length (c ∷ m)) (omega (arith, length-map toupper (c ∷ m)))

c_string-append :
    (s t : Bytes) {u : Bytes}
    → All (λ c. c ≢ 0) s
    → c_string t ≡ some u
    → c_string (s ++ t) ≡ some (s ++ u)
unfolding c_string
c_string-append [] t p e = e
c_string-append (zero ∷ s) t p e = absurd (p.0 refl)
c_string-append (suc c ∷ s) t p e = rw (c_string-append s t p.1 e) refl

map-NotZero :
    (toupper : ℕ → ℕ) (m : Bytes) → All (λ c. toupper c ≢ 0) m → All (λ c. c ≢ 0) (map toupper m)
map-NotZero toupper [] p = tt
map-NotZero toupper (c ∷ m) p = (p.0, map-NotZero toupper m p.1)

-- A client whose message of 1 to 255 bytes reaches handler in one piece prints the message in upper case,
-- and behind it what its buffer happened to hold from there on up to a zero byte: the answer has no zero byte
-- of its own.
pub talk-handler :
    (toupper : ℕ → ℕ) (garbage m stale : Bytes)
    → m ≢ []
    → length m < buffer_size
    → All (λ c. toupper c ≢ 0) m
    → c_string (drop (length m) garbage) ≡ some stale
    → talk garbage (some (length m)) (some (reply_of toupper m))
      ≡ some (record { printed = map toupper m ++ stale; status = 0 })
unfolding talk print
talk-handler toupper garbage m stale some_byte h p e =
    let whole = take_all (map toupper m) buffer_size (omega (arith, length-map toupper m)) in
    let text =
      c_string-append (map toupper m) (drop (length m) garbage) (map-NotZero toupper m p) e in
    rw (reply_of-upper toupper m) (rw whole (rw (length-map toupper m) (rw text refl)))
