-- ===== src/Uv/Server.antt =====
-- libuv_tcp_server01/main.c: the callbacks. Which of them libuv calls, and with what, is a list of events;
-- what `malloc` gives is part of an event, with `none` for NULL. `toupper` is an argument.
use c_study.Base.{
  ℕ, zero, suc, List, [], ◌∷◌, ◌++◌, Bool, true, false, Option, none, some, map, ◌==◌,
  if◌then◌else◌, ◌>>=◌,
}

abbrev pub Bytes : Type 0
Bytes = List ℕ

-- `struct Request`, at the address `req` and with its buffer at `buf`, while libuv has it.
pub record Request : Type 0 where
  pub req : ℕ
  pub buf : ℕ

-- What is handed to uv_write.
pub record Message : Type 0 where
  pub stream : ℕ
  pub bytes : Bytes

-- The blocks that are allocated, the requests that libuv has not finished, and what was handed to uv_write.
pub record Server : Type 0 where
  pub live : List ℕ
  pub pending : List Request
  pub sent : List Message

abbrev pub start : Server
start = record { live = []; pending = []; sent = [] }

-- `nread`, with the bytes that it counts.
pub data Nread : Type 0 where
  eof failure : Nread
  got : Bytes → Nread

pub data Event : Type 0 where
  -- ConnectionCallback, with what `malloc` gives
  connected : (ok : Bool) → (client : Option ℕ) → Event
  -- AllocBuffer and ReadCallback, with what the three calls of `malloc` give
  received : (stream : ℕ) → Nread → (base req buf : Option ℕ) → Event
  -- WriteCallback, for one of the pending requests
  written : (index : ℕ) → Event

pub data Outcome : Type 0 where
  fault : Outcome  -- a use of NULL, or a `free` of what is not allocated
  exited : Outcome  -- `exit(1)`
  running : Server → Outcome

-- `free` of an address.
unfoldable pub release : ℕ → List ℕ → Option (List ℕ)
release p [] = none
release p (q ∷ live) =
    let later = (do live' ← release p live; some (q ∷ live')) in if p == q then some live else later

-- `free`
unfoldable pub free : Option ℕ → Server → Option Server
unfolding release
free none s = some s
free (some p) s = do live ← release p s.live; some (record s { live = live })

abbrev pub running_or_fault : Option Server → Outcome
running_or_fault none = fault
running_or_fault (some s) = running s

-- ConnectionCallback
unfoldable pub connection_callback : Server → Bool → Option ℕ → Outcome
connection_callback s false client = running s
connection_callback s true none = fault
connection_callback s true (some client) = running (record s { live = client ∷ s.live })

-- AllocBuffer
unfoldable pub alloc_buffer : Server → Option ℕ → Server
alloc_buffer s none = s
alloc_buffer s (some base) = record s { live = base ∷ s.live }

-- The loop that copies reads `buf->base`.
unfoldable pub is_readable : Option ℕ → Bytes → Bool
is_readable base [] = true
is_readable none (c ∷ bytes) = false
is_readable (some p) (c ∷ bytes) = true

-- ReadCallback from the copy on.
unfoldable pub answer : (ℕ → ℕ) → Server → ℕ → Bytes → Option ℕ → ℕ → ℕ → Outcome
unfolding is_readable free
answer toupper s stream bytes base req buf =
    if is_readable base bytes
    then running_or_fault (
        free base (record {
          live = buf ∷ req ∷ s.live;
          pending = s.pending ++ (record { req = req; buf = buf }) ∷ [];
          sent = s.sent ++ (record { stream = stream; bytes = map toupper bytes }) ∷ [];
        }))
    else fault

-- ReadCallback
unfoldable pub read_callback :
    (ℕ → ℕ) → Server → ℕ → Nread → Option ℕ → Option ℕ → Option ℕ → Outcome
unfolding free answer
read_callback toupper s stream eof base req buf = running s
read_callback toupper s stream failure base req buf = running_or_fault (free base s)
read_callback toupper s stream (got bytes) base none buf = exited
read_callback toupper s stream (got bytes) base (some r) none = exited
read_callback toupper s stream (got bytes) base (some r) (some b) =
    answer toupper s stream bytes base r b

-- A pending request and the others.
unfoldable pub take_request : ℕ → List Request → Option (Request × List Request)
take_request index [] = none
take_request zero (r ∷ pending) = some (r, pending)
take_request (suc index) (r ∷ pending) = do
  found ← take_request index pending
  some (found.0, r ∷ found.1)

-- WriteCallback. libuv calls it for pending requests only, so that any other index is no call.
unfoldable pub write_callback : Server → ℕ → Outcome
unfolding take_request free
write_callback s index = elim (take_request index s.pending) [
  | none ↦ running s
  | some (r, pending) ↦
      running_or_fault
        (do s' ← free (some r.buf) (record s { pending = pending }); free (some r.req) s')
]

unfoldable pub handle : (ℕ → ℕ) → Server → Event → Outcome
unfolding connection_callback alloc_buffer read_callback write_callback
handle toupper s (connected ok client) = connection_callback s ok client
handle toupper s (received stream nread base req buf) =
    read_callback toupper (alloc_buffer s base) stream nread base req buf
handle toupper s (written index) = write_callback s index

-- `uv_run` for these events.
unfoldable pub uv_run : (ℕ → ℕ) → List Event → Server → Outcome
unfolding handle
uv_run toupper [] s = running s
uv_run toupper (e ∷ events) s = elim (handle toupper s e) [
  | fault ↦ fault
  | exited ↦ exited
  | running s' ↦ uv_run toupper events s'
]
