-- ===== src/Chat/Handle.antt =====
-- What the body of the loop over the ready descriptors does.
use mathlib.Core.List.{append-nil}
use native.Mathlib.Decide.{ℕ_discrete}
use c_study.Base.{
  List, if◌then◌else◌, ◌∷◌, ℕ, zero, suc, ◌+◌, ◌≤◌, ◌<◌, ◌≡◌, refl, ◌≢◌, ◌∙◌, ap, sym, [], ◌++◌,
  true, false, none, some, ltb, arith, Bool-cases, Option-cases, inl, inr,
}
use c_study.Chat.Server.{
  Bytes, fd_set, fd_clr, Server, Round, running, accept_client, receive, breaks, send_loop, handle,
}
use c_study.Chat.Inbox.{
  inbox, inbox-append, said, said-nothing, said-failed, said-buf, IsClient, send_loop-client,
  send_loop_self,
}

-- The set holds the listening socket, its members lie from 1 to `max_fd`, and they fit into an `fd_set`.
pub record IsValid (setsize : ℕ) (s : Server) : Type 0 where
  pub server : s.master s.server_sock ≡ true
  pub positive : (k : ℕ) → s.master k ≡ true → 1 ≤ k
  pub bounded : (k : ℕ) → s.master k ≡ true → k ≤ s.max_fd
  pub small : s.max_fd < setsize

-- A ready descriptor is a member of the set, and if it is the listening socket then `accept` gives a
-- descriptor that is not 0 and fits into an `fd_set`. No client is gone to which something is sent.
pub record IsPossible (setsize : ℕ) (s : Server) (r : Round) : Type 0 where
  pub reads : (k : ℕ) → r.reads k ≡ true → s.master k ≡ true
  pub accepts :
      r.reads s.server_sock ≡ true → (c : ℕ) × (r.accepted ≡ some c) × (1 ≤ c) × (c < setsize)
  pub unbroken : (k : ℕ) → r.broken k ≡ false

-- `recv` does not fail for `j` in this round.
abbrev pub Stays : Round → ℕ → Type 0
Stays r j = r.reads j ≡ true → r.received j ≢ none

-- The server is valid again, and each client that stays is still in the set and was sent what `voice`
-- gives for it.
pub record Handled (setsize : ℕ) (r : Round) (voice : ℕ → List Bytes) (s t : Server) : Type 0 where
  pub valid : IsValid setsize t
  pub same : t.server_sock ≡ s.server_sock
  pub grows : s.max_fd ≤ t.max_fd
  pub keeps : (j : ℕ) → IsClient s j → Stays r j → IsClient t j
  pub hears : (j : ℕ) → IsClient s j → Stays r j → inbox j t.sent ≡ inbox j s.sent ++ voice j

module _ (setsize : ℕ) (r : Round) (i : ℕ) (s : Server) (v : IsValid setsize s) where
  -- After FD_SET of the client `c`.
  abbrev joined : ℕ → Server
  joined c = record s {
    master = fd_set s.master c;
    max_fd = if ltb s.max_fd c then c else s.max_fd;
  }

  -- After FD_CLR of `i`.
  abbrev hung_up : Server
  hung_up = record s { master = fd_clr s.master i; closed = s.closed ++ i ∷ [] }

  -- After the messages of `i`.
  abbrev passed_on : Bytes → Server
  passed_on buf = record s { sent = s.sent ++ send_loop s.max_fd 1 s i buf }

  abbrev voice : ℕ → List Bytes
  voice j = said r s.server_sock j i

  joined-IsValid : (c : ℕ) → 1 ≤ c → c < setsize → IsValid setsize (joined c)
  joined-IsValid c l k =
      let server = v.server in
      let small = v.small in
      record {
        server = ground arith;
        positive = λ j (m : (joined c).master j ≡ true). let p = v.positive j in ground arith;
        bounded = λ j (m : (joined c).master j ≡ true). let p = v.bounded j in ground arith;
        small = ground arith;
      }

  hung_up-IsValid : i ≢ s.server_sock → IsValid setsize hung_up
  hung_up-IsValid e =
      let server = v.server in
      record {
        server = ground arith;
        positive = λ j (m : hung_up.master j ≡ true). v.positive j (ground arith);
        bounded = λ j (m : hung_up.master j ≡ true). v.bounded j (ground arith);
        small = v.small;
      }

  quiet :
      (j : ℕ)
      → said r s.server_sock j i ≡ []
      → inbox j s.sent ≡ inbox j s.sent ++ said r s.server_sock j i
  quiet j e = sym (ap (λ l. inbox j s.sent ++ l) e ∙ append-nil (inbox j s.sent))

  handle-accept :
      (c : ℕ)
      → r.reads i ≡ true
      → i ≡ s.server_sock
      → r.accepted ≡ some c
      → 1 ≤ c
      → c < setsize
      → (t : Server) × (handle setsize r i s ≡ running t) × Handled setsize r voice s t
  unfolding handle accept_client said
  handle-accept c h e a l k = (
    joined c,
    rw (h, handle) (rw (a, accept_client) (ground arith)),
    record {
      valid = joined-IsValid c l k;
      same = refl;
      grows = ground arith;
      keeps = λ j c' st. let m = c'.member in record { member = ground arith; client = c'.client };
      hears = λ j c' st. quiet j (said-nothing r s.server_sock j i (inr (inl e)));
    },
  )

  handle-idle :
      r.reads i ≡ false
      → (t : Server) × (handle setsize r i s ≡ running t) × Handled setsize r voice s t
  unfolding handle
  handle-idle h = (
    s,
    ground arith,
    record {
      valid = v;
      same = refl;
      grows = omega arith;
      keeps = λ j c st. c;
      hears = λ j c st. quiet j (said-nothing r s.server_sock j i (inl h));
    },
  )

  handle-failed :
      r.reads i ≡ true
      → i ≢ s.server_sock
      → r.received i ≡ none
      → (t : Server) × (handle setsize r i s ≡ running t) × Handled setsize r voice s t
  unfolding handle receive
  handle-failed h e g = (
    hung_up,
    rw (g, handle) (ground arith),
    record {
      valid = hung_up-IsValid e;
      same = refl;
      grows = omega arith;
      keeps = λ j c st.
          let other : j ≢ i = λ d. st (ap r.reads d ∙ h) (ap r.received d ∙ g) in
          let m = c.member in record { member = ground arith; client = c.client };
      hears = λ j c st. quiet j (said-failed r s.server_sock j i g);
    },
  )

  passed_on-hears :
      (buf : Bytes) (j : ℕ)
      → r.reads i ≡ true
      → i ≢ s.server_sock
      → r.received i ≡ some buf
      → IsClient s j
      → inbox j (send_loop s.max_fd 1 s i buf) ≡ said r s.server_sock j i
  passed_on-hears buf j h e g c = elim (ℕ_discrete j i) [
    | yes same ↦
        send_loop_self s i buf j s.max_fd 1 same
        ∙ sym (said-nothing r s.server_sock j i (inr (inr (sym same))))
    | no other ↦
        let p = v.positive j c.member in
        let b = v.bounded j c.member in
        send_loop-client s i buf j s.max_fd 1 c other p (omega arith)
        ∙ sym (said-buf r s.server_sock j i buf h e (λ d. other (sym d)) g)
  ]

  breaks-unbroken :
      (rounds j : ℕ) → ((k : ℕ) → r.broken k ≡ false) → breaks rounds j s i r.broken ≡ false
  unfolding breaks
  breaks-unbroken zero j u = refl
  breaks-unbroken (suc rounds) j u = ground (arith, u j, breaks-unbroken rounds (j + 1) u)

  handle-message :
      (buf : Bytes)
      → ((k : ℕ) → r.broken k ≡ false)
      → r.reads i ≡ true
      → i ≢ s.server_sock
      → r.received i ≡ some buf
      → (t : Server) × (handle setsize r i s ≡ running t) × Handled setsize r voice s t
  unfolding handle receive
  handle-message buf u h e g = (
    passed_on buf,
    rw (g, handle) (ground (arith, breaks-unbroken s.max_fd 1 u)),
    record {
      valid = record {
        server = v.server;
        positive = v.positive;
        bounded = v.bounded;
        small = v.small;
      };
      same = refl;
      grows = omega arith;
      keeps = λ j c st. record { member = c.member; client = c.client };
      hears = λ j c st.
          inbox-append j s.sent _ ∙ ap (λ l. inbox j s.sent ++ l) (passed_on-hears buf j h e g c);
    },
  )

  pub handle-Handled :
      (r.reads i ≡ true
        → i ≡ s.server_sock
        → (c : ℕ) × (r.accepted ≡ some c) × (1 ≤ c) × (c < setsize))
      → ((k : ℕ) → r.broken k ≡ false)
      → (t : Server) × (handle setsize r i s ≡ running t) × Handled setsize r voice s t
  handle-Handled a u = elim (Bool-cases (r.reads i)) [
    | inr h ↦ handle-idle h
    | inl h ↦ elim (ℕ_discrete i s.server_sock) [
      | yes e ↦ let (c, g, l, k) = a h e in handle-accept c h e g l k
      | no e ↦ elim (Option-cases (r.received i)) [
        | inl g ↦ handle-failed h e g
        | inr (buf, g) ↦ handle-message buf u h e g
      ]
    ]
  ]
