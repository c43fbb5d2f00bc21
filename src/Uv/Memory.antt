-- ===== src/Uv/Memory.antt =====
-- What the server allocates, releases and forgets.
use mathlib.Core.Path.{subst}
use mathlib.Core.List.{append-nil, append_assoc}
use c_study.Base.{
  ℕ, ◌+◌, ◌*◌, ◌≡◌, refl, ap, sym, ◌∙◌, ◌⊎◌, inl, inr, ◌≢◌, List, [], ◌∷◌, ◌++◌, Bool, true, false,
  Option, none, some, map, arith, length, All, Option-cases,
}
use c_study.Uv.Server.{
  Bytes, Message, Server, start, Nread, eof, failure, got, Event, connected, received, written,
  Outcome, fault, exited, running, connection_callback, alloc_buffer, is_readable, answer,
  read_callback, take_request, write_callback, handle, uv_run,
}
use c_study.Uv.Account.{
  Accounted, free-Accounted, malloc-Accounted, forget-Accounted, request-Accounted, taken-Accounted,
  Accounted-eq, start-Accounted,
}

-- The blocks that an event makes the server forget.
abbrev pub forgets : Event → ℕ
forgets (connected false client) = 0
forgets (connected true client) = 1
forgets (received stream eof base req buf) = 1
forgets (received stream failure base req buf) = 0
forgets (received stream (got bytes) base req buf) = 0
forgets (written index) = 0

-- A client gets its memory, and libuv reads into a buffer that AllocBuffer made.
abbrev pub IsPossible : Event → Type 0
IsPossible (connected ok client) = client ≢ none
IsPossible (received stream nread base req buf) = base ≢ none
IsPossible (written index) = Unit {0}

-- What an event makes the server hand to uv_write.
abbrev pub answers : (ℕ → ℕ) → Event → List Message
answers toupper (connected ok client) = []
answers toupper (received stream eof base req buf) = []
answers toupper (received stream failure base req buf) = []
answers toupper (received stream (got bytes) base req buf) =
    (record { stream = stream; bytes = map toupper bytes }) ∷ []
answers toupper (written index) = []

readable : (p : ℕ) (bytes : Bytes) → is_readable (some p) bytes ≡ true
unfolding is_readable
readable p [] = refl
readable p (c ∷ bytes) = refl

-- The program has stopped by `exit`, or the blocks are accounted for and this was sent.
abbrev Safe : ℕ → List Message → Outcome → Type 0
Safe lost sent fault = ⊥
Safe lost sent exited = Unit {0}
Safe lost sent (running s) = Accounted lost [] s × (s.sent ≡ sent)

module _ (toupper : ℕ → ℕ) (lost : ℕ) (s : Server) (v : Accounted lost [] s) where
  connection_callback-Safe :
      (ok : Bool) (client : Option ℕ)
      → client ≢ none
      → Safe (forgets (connected ok client) + lost) (s.sent ++ []) (connection_callback s ok client)
  unfolding connection_callback
  connection_callback-Safe false client h =
      (Accounted-eq lost (0 + lost) [] s (omega arith) v, sym (append-nil s.sent))
  connection_callback-Safe true none h = h refl
  connection_callback-Safe true (some p) h = (
    Accounted-eq (lost + 1) (1 + lost) [] _ (omega arith)
        (forget-Accounted lost p [] _ (malloc-Accounted lost p [] s v)),
    sym (append-nil s.sent),
  )

  write_callback-Safe : (index : ℕ) → Safe (0 + lost) (s.sent ++ []) (write_callback s index)
  unfolding write_callback
  write_callback-Safe index = elim (Option-cases (take_request index s.pending)) [
    | inl e ↦
        rw (e, write_callback)
          (Accounted-eq lost (0 + lost) [] s (omega arith) v, sym (append-nil s.sent))
    | inr ((r, rest), e) ↦
        let (live, f, w) =
          free-Accounted lost r.buf (r.req ∷ []) _ (taken-Accounted lost index s v e) in
        let (live', f', w') = free-Accounted lost r.req [] _ w in
        rw (e, write_callback)
          (rw f
            (rw f' (Accounted-eq lost (0 + lost) [] _ (omega arith) w', sym (append-nil s.sent))))
  ]

  answer-Safe :
      (stream : ℕ) (bytes : Bytes) (p req buf : ℕ)
      → Safe
          (0 + lost)
          (s.sent ++ answers toupper (received stream (got bytes) (some p) (some req) (some buf)))
          (answer toupper (record s { live = p ∷ s.live }) stream bytes (some p) req buf)
  unfolding answer
  answer-Safe stream bytes p req buf =
      let a = malloc-Accounted lost p [] s v in
      let b = malloc-Accounted lost req (p ∷ []) _ a in
      let c = malloc-Accounted lost buf (req ∷ p ∷ []) _ b in
      let d =
        request-Accounted lost (record { req = req; buf = buf }) (p ∷ []) _
          (s.sent ++ (record { stream = stream; bytes = map toupper bytes }) ∷ []) c in
      let (live, f, w) = free-Accounted lost p [] _ d in
      rw (readable p bytes) (rw f (Accounted-eq lost (0 + lost) [] _ (omega arith) w, refl))

  read_callback-Safe :
      (stream : ℕ) (nread : Nread) (base req buf : Option ℕ)
      → base ≢ none
      → Safe
          (forgets (received stream nread base req buf) + lost)
          (s.sent ++ answers toupper (received stream nread base req buf))
          (read_callback toupper (alloc_buffer s base) stream nread base req buf)
  unfolding read_callback alloc_buffer
  read_callback-Safe stream nread none req buf h = absurd (h refl)
  read_callback-Safe stream eof (some p) req buf h = (
    Accounted-eq (lost + 1) (1 + lost) [] _ (omega arith)
        (forget-Accounted lost p [] _ (malloc-Accounted lost p [] s v)),
    sym (append-nil s.sent),
  )
  read_callback-Safe stream failure (some p) req buf h =
      let (live, f, w) = free-Accounted lost p [] _ (malloc-Accounted lost p [] s v) in
      rw f (Accounted-eq lost (0 + lost) [] _ (omega arith) w, sym (append-nil s.sent))
  read_callback-Safe stream (got bytes) (some p) none buf h = tt
  read_callback-Safe stream (got bytes) (some p) (some r) none h = tt
  read_callback-Safe stream (got bytes) (some p) (some r) (some b) h =
      answer-Safe stream bytes p r b

  handle-Safe :
      (e : Event)
      → IsPossible e
      → Safe (forgets e + lost) (s.sent ++ answers toupper e) (handle toupper s e)
  unfolding handle
  handle-Safe (connected ok client) h = connection_callback-Safe ok client h
  handle-Safe (received stream nread base req buf) h =
      read_callback-Safe stream nread base req buf h
  handle-Safe (written index) h = write_callback-Safe index

-- The sum of what the events forget, and all answers.
unfoldable pub forgotten : List Event → ℕ
forgotten [] = 0
forgotten (e ∷ events) = forgets e + forgotten events

unfoldable pub answered : (ℕ → ℕ) → List Event → List Message
answered toupper [] = []
answered toupper (e ∷ events) = answers toupper e ++ answered toupper events

Safe-eq :
    (lost lost' : ℕ) (sent sent' : List Message) (o : Outcome)
    → lost ≡ lost'
    → sent ≡ sent'
    → Safe lost sent o
    → Safe lost' sent' o
Safe-eq lost lost' sent sent' o e f v =
    subst (λ m. Safe lost' m o) f (subst (λ n. Safe n sent o) e v)

-- One event, and what is known of the later ones.
uv_run-cons :
    (toupper : ℕ → ℕ) (e : Event) (events : List Event) (lost : ℕ) (s : Server)
    → ((t : Server)
        → Accounted (forgets e + lost) [] t
        → Safe
            (forgotten events + (forgets e + lost))
            (t.sent ++ answered toupper events)
            (uv_run toupper events t))
    → (o : Outcome) → handle toupper s e ≡ o
    → Safe (forgets e + lost) (s.sent ++ answers toupper e) o
    → Safe
        (forgotten (e ∷ events) + lost)
        (s.sent ++ answered toupper (e ∷ events))
        (uv_run toupper (e ∷ events) s)
unfolding uv_run forgotten answered
uv_run-cons toupper e events lost s later fault q w = absurd w
uv_run-cons toupper e events lost s later exited q w = rw (q, uv_run) tt
uv_run-cons toupper e events lost s later (running t) q w =
    rw (q, uv_run)
      (Safe-eq _ _ _ _ (uv_run toupper events t) (omega arith)
        (ap (λ m. m ++ answered toupper events) w.1
          ∙ append_assoc s.sent (answers toupper e) (answered toupper events))
        (later t w.0))

uv_run-Safe :
    (toupper : ℕ → ℕ) (events : List Event) (lost : ℕ) (s : Server)
    → Accounted lost [] s
    → All IsPossible events
    → Safe (forgotten events + lost) (s.sent ++ answered toupper events) (uv_run toupper events s)
unfolding uv_run forgotten answered
uv_run-Safe toupper [] lost s v h =
    (Accounted-eq lost (0 + lost) [] s (omega arith) v, sym (append-nil s.sent))
uv_run-Safe toupper (e ∷ events) lost s v h =
    let later = λ (t : Server) (w : Accounted (forgets e + lost) [] t).
      uv_run-Safe toupper events (forgets e + lost) t w h.1 in
    uv_run-cons toupper e events lost s later (handle toupper s e) refl
      (handle-Safe toupper lost s v e h.0)

Safe-cases :
    (lost : ℕ) (sent : List Message) (o : Outcome)
    → Safe lost sent o
    → (o ≡ exited)
      ⊎ ((t : Server) × (o ≡ running t)
          × (length t.live ≡ lost + 2 * length t.pending)
          × (t.sent ≡ sent))
Safe-cases lost sent fault w = absurd w
Safe-cases lost sent exited w = inl refl
Safe-cases lost sent (running t) w = inr (t, refl, w.0.size ∙ omega arith, w.1)

-- Whatever callbacks libuv makes, where each client and each buffer of AllocBuffer gets its memory: the
-- server never uses NULL and never releases a block that is not allocated, also a second time. It stops by
-- `exit`, or it has handed every piece that it read to uv_write, in upper case, in order and with its
-- stream; and beside the two blocks of each pending request it has exactly one block for each connection
-- and one for each end of a stream, none of which it ever releases.
pub uv_run_lem :
    (toupper : ℕ → ℕ) (events : List Event)
    → All IsPossible events
    → (uv_run toupper events start ≡ exited)
      ⊎ ((t : Server) × (uv_run toupper events start ≡ running t)
          × (length t.live ≡ forgotten events + 2 * length t.pending)
          × (t.sent ≡ answered toupper events))
uv_run_lem toupper events h =
    Safe-cases (forgotten events) (answered toupper events) (uv_run toupper events start) (
      Safe-eq _ _ _ _ (uv_run toupper events start) (omega arith) refl
        (uv_run-Safe toupper events 0 start start-Accounted h))
