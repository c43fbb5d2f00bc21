-- ===== src/Chat/Inbox.antt =====
-- What one descriptor gets of the messages that are sent.
use c_study.Base.{
  ℕ, zero, suc, ◌+◌, ◌≤◌, ◌<◌, ◌≡◌, refl, ◌≢◌, List, [], ◌∷◌, ◌++◌, true, none, some, ◌&&◌, not,
  ◌==◌, if◌then◌else◌, false, ◌⊎◌, arith, Bool-cases, inl, inr,
}
use c_study.Chat.Server.{Bytes, Message, Server, Round, send_loop}

unfoldable pub inbox : ℕ → List Message → List Bytes
inbox j [] = []
inbox j (m ∷ sent) = if m.receiver == j then m.bytes ∷ inbox j sent else inbox j sent

pub inbox-append : (j : ℕ) (l k : List Message) → inbox j (l ++ k) ≡ inbox j l ++ inbox j k
unfolding inbox
inbox-append j [] k = refl
inbox-append j (m ∷ l) k = let ih = inbox-append j l k in ground arith

-- What descriptor `i` says to `j` in a round.
unfoldable pub said : Round → ℕ → ℕ → ℕ → List Bytes
said r server_sock j i =
    if r.reads i && not (i == server_sock) && not (i == j)
    then elim (r.received i) [ none ↦ [] | some buf ↦ buf ∷ [] ]
    else []

module _ (r : Round) (server_sock j i : ℕ) where
  pub said-nothing :
      (r.reads i ≡ false) ⊎ ((i ≡ server_sock) ⊎ (i ≡ j)) → said r server_sock j i ≡ []
  unfolding said
  said-nothing h = ground arith

  pub said-failed : r.received i ≡ none → said r server_sock j i ≡ []
  unfolding said
  said-failed e = rw (e, said) (ground arith)

  pub said-buf :
      (buf : Bytes)
      → r.reads i ≡ true
      → i ≢ server_sock
      → i ≢ j
      → r.received i ≡ some buf
      → said r server_sock j i ≡ buf ∷ []
  unfolding said
  said-buf buf h e d g = rw (g, said) (ground arith)

-- What `j` hears from the descriptors from `i` on, `rounds` of them, in ascending order.
unfoldable pub heard : ℕ → ℕ → Round → ℕ → ℕ → List Bytes
unfolding said
heard zero i r server_sock j = []
heard (suc rounds) i r server_sock j =
    said r server_sock j i ++ heard rounds (i + 1) r server_sock j

-- `j` is a client in the set.
pub record IsClient (s : Server) (j : ℕ) : Type 0 where
  pub member : s.master j ≡ true
  pub client : j ≢ s.server_sock

module _ (s : Server) (i : ℕ) (buf : Bytes) (j : ℕ) where
  send_loop-past : (rounds k : ℕ) → j < k → inbox j (send_loop rounds k s i buf) ≡ []
  unfolding inbox send_loop
  send_loop-past zero k h = refl
  send_loop-past (suc rounds) k h =
      let ih = send_loop-past rounds (k + 1) (omega arith) in ground arith

  pub send_loop-client :
      (rounds k : ℕ)
      → IsClient s j
      → j ≢ i
      → k ≤ j
      → j < k + rounds
      → inbox j (send_loop rounds k s i buf) ≡ buf ∷ []
  unfolding inbox send_loop
  send_loop-client zero k c d h l = absurd (omega arith)
  send_loop-client (suc rounds) k c d h l = elim (Bool-cases (k == j)) [
    | inl e ↦
        let here : k ≡ j = ground arith in
        let past = send_loop-past rounds (k + 1) (omega arith) in
        let member = c.member in let client = c.client in ground arith
    | inr e ↦
        let ih = send_loop-client rounds (k + 1) c d (ground arith) (omega arith) in ground arith
  ]

  pub send_loop_self : (rounds k : ℕ) → j ≡ i → inbox j (send_loop rounds k s i buf) ≡ []
  unfolding inbox send_loop
  send_loop_self zero k e = refl
  send_loop_self (suc rounds) k e = let ih = send_loop_self rounds (k + 1) e in ground arith
