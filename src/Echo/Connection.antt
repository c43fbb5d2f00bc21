-- ===== src/Echo/Connection.antt =====
-- One connection of multi_thread_server01/server.c (handler) and of a child of prefork_server01/main.c.
-- `toupper` is an argument.
use c_study.Base.{
  ℕ, ◌≤◌, sym, take_all, length-map, map-append, ◌≡◌, ◌≢◌, refl, ap, ◌∙◌, List, [], ◌∷◌, ◌++◌, Bool,
  true, false, Option, none, some, map, All, length, take, arith,
}
use c_study.Filters.Input.{Bytes, Read, eintr, failure, got, content}

-- What one round of the loop gets: the result of `recv` or `read`, and if it gives bytes, that of `send`,
-- which is the number of bytes taken, or `none` for -1.
pub data Exchange : Type 0 where
  exchange : (received : Read) → (taken : Option ℕ) → Exchange

-- What the client gets of a buffer.
unfoldable pub sent : Option ℕ → Bytes → Bytes
sent none buffer = []
sent (some n) buffer = take n buffer

-- handler. The end of the list is the end of the connection; a failing `send` changes nothing else.
unfoldable pub handler : (ℕ → ℕ) → List Exchange → Bytes
unfolding sent
handler toupper [] = []
handler toupper (exchange eintr taken ∷ sock) = []
handler toupper (exchange failure taken ∷ sock) = []
handler toupper (exchange (got []) taken ∷ sock) = []
handler toupper (exchange (got (c ∷ buffer)) taken ∷ sock) =
    sent taken (map toupper (c ∷ buffer)) ++ handler toupper sock

-- What a client of a child got, and whether the child goes on to the next `accept`.
pub record Served : Type 0 where
  pub echoed : Bytes
  pub alive : Bool

unfoldable pub reply : Option ℕ → Bytes → Served → Served
unfolding sent
reply none buffer rest = record { echoed = []; alive = false }
reply (some n) buffer rest = record rest { echoed = sent (some n) buffer ++ rest.echoed }

-- The loop over `read` in a child of prefork_server01/main.c.
unfoldable pub serve_client : (ℕ → ℕ) → List Exchange → Served
unfolding reply
serve_client toupper [] = record { echoed = []; alive = true }
serve_client toupper (exchange eintr taken ∷ sock) = serve_client toupper sock
serve_client toupper (exchange failure taken ∷ sock) = record { echoed = []; alive = false }
serve_client toupper (exchange (got []) taken ∷ sock) = record { echoed = []; alive = true }
serve_client toupper (exchange (got (c ∷ buffer)) taken ∷ sock) =
    reply taken (map toupper (c ∷ buffer)) (serve_client toupper sock)

-- The result of `recv` or `read`, and whether no call fails and `send` takes all bytes that it is given.
abbrev pub received : Exchange → Read
received (exchange r taken) = r

abbrev pub IsWhole : Exchange → Type 0
IsWhole (exchange eintr taken) = Unit {0}
IsWhole (exchange failure taken) = ⊥
IsWhole (exchange (got buffer) taken) = (n : ℕ) × (taken ≡ some n) × (length buffer ≤ n)

reply-all :
    (toupper : ℕ → ℕ) (taken : Option ℕ) (buffer : Bytes) (r : Served)
    → (n : ℕ) × (taken ≡ some n) × (length buffer ≤ n)
    → reply taken (map toupper buffer) r ≡ record r { echoed = map toupper buffer ++ r.echoed }
unfolding reply sent
reply-all toupper taken buffer r (n, e, h) =
    rw (e, reply)
      (ap (λ b. record r { echoed = b ++ r.echoed })
        (take_all (map toupper buffer) n (omega (arith, length-map toupper buffer, h))))

abbrev all_sent : Bytes → Served
all_sent b = record { echoed = b; alive = true }

-- Without a failure a child sends a client all of its bytes back in upper case.
pub serve_client-content :
    (toupper : ℕ → ℕ) (sock : List Exchange)
    → All IsWhole sock
    → serve_client toupper sock
      ≡ record { echoed = map toupper (content (map received sock)); alive = true }
unfolding serve_client content
serve_client-content toupper [] w = refl
serve_client-content toupper (exchange eintr taken ∷ sock) w = serve_client-content toupper sock w.1
serve_client-content toupper (exchange failure taken ∷ sock) w = absurd w.0
serve_client-content toupper (exchange (got []) taken ∷ sock) w = refl
serve_client-content toupper (exchange (got (c ∷ buffer)) taken ∷ sock) w =
    reply-all toupper taken (c ∷ buffer) (serve_client toupper sock) w.0
    ∙ ap (λ (r : Served). record r { echoed = map toupper (c ∷ buffer) ++ r.echoed })
        (serve_client-content toupper sock w.1)
    ∙ ap (λ b. all_sent (toupper c ∷ b))
        (sym (map-append toupper buffer (content (map received sock))))

-- No call is interrupted, and `send` does not fail.
abbrev pub IsSmooth : Exchange → Type 0
IsSmooth (exchange r taken) = (r ≢ eintr) × (taken ≢ none)

reply-echoed :
    (taken : Option ℕ) (buffer : Bytes) (r : Served)
    → taken ≢ none
    → (reply taken buffer r).echoed ≡ sent taken buffer ++ r.echoed
unfolding reply
reply-echoed none buffer r h = absurd (h refl)
reply-echoed (some n) buffer r h = refl

-- Where no call is interrupted and no `send` fails, a client of multi_thread_server01 gets the same bytes as
-- a client of prefork_server01 that sends the same, also where `send` takes only some of the bytes or a
-- read fails.
handler-serve_client :
    (toupper : ℕ → ℕ) (sock : List Exchange)
    → All IsSmooth sock
    → handler toupper sock ≡ (serve_client toupper sock).echoed
unfolding handler serve_client
handler-serve_client toupper [] w = refl
handler-serve_client toupper (exchange eintr taken ∷ sock) w = absurd (w.0.0 refl)
handler-serve_client toupper (exchange failure taken ∷ sock) w = refl
handler-serve_client toupper (exchange (got []) taken ∷ sock) w = refl
handler-serve_client toupper (exchange (got (c ∷ buffer)) taken ∷ sock) w =
    ap (λ b. sent taken (map toupper (c ∷ buffer)) ++ b) (handler-serve_client toupper sock w.1)
    ∙ sym (reply-echoed taken (map toupper (c ∷ buffer)) (serve_client toupper sock) w.0.1)
