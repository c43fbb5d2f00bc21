-- ===== src/Chat/Deliver.antt =====
-- What a round of the chat server delivers.
use mathlib.Core.Path.{subst}
use mathlib.Core.List.{append_assoc, append-nil}
use native.Mathlib.Decide.{dec_lt}
use c_study.Base.{
  ℕ, zero, suc, ◌+◌, ◌≤◌, ◌<◌, ◌==◌, ◌≡◌, refl, sym, ap, ◌∙◌, List, [], ◌++◌, true, false, inl,
  some, leb, arith,
}
use c_study.Chat.Server.{Bytes, Server, Round, ready, running, handle, visit, serve, start}
use c_study.Chat.Inbox.{inbox, said, heard, said-nothing, IsClient}
use c_study.Chat.Handle.{IsValid, IsPossible, Stays, Handled, handle-Handled}

Handled-refl :
    (setsize : ℕ) (r : Round) (s : Server) → IsValid setsize s → Handled setsize r (λ j. []) s s
Handled-refl setsize r s v = record {
  valid = v;
  same = refl;
  grows = omega arith;
  keeps = λ j c st. c;
  hears = λ j c st. sym (append-nil (inbox j s.sent));
}

Handled-congr :
    (setsize : ℕ) (r : Round) (f g : ℕ → List Bytes) (s t : Server)
    → ((j : ℕ) → f j ≡ g j)
    → Handled setsize r f s t
    → Handled setsize r g s t
Handled-congr setsize r f g s t e h = record {
  valid = h.valid;
  same = h.same;
  grows = h.grows;
  keeps = h.keeps;
  hears = λ j c st. h.hears j c st ∙ ap (λ l. inbox j s.sent ++ l) (e j);
}

Handled-trans :
    (setsize : ℕ) (r : Round) (f g : ℕ → List Bytes) (s t u : Server)
    → Handled setsize r f s t
    → Handled setsize r g t u
    → Handled setsize r (λ j. f j ++ g j) s u
Handled-trans setsize r f g s t u h k = record {
  valid = k.valid;
  same = k.same ∙ h.same;
  grows = omega (arith, h.grows, k.grows);
  keeps = λ j c st. k.keeps j (h.keeps j c st) st;
  hears = λ j c st.
      k.hears j (h.keeps j c st) st
      ∙ ap (λ l. l ++ g j) (h.hears j c st)
      ∙ append_assoc (inbox j s.sent) (f j) (g j);
}

-- Nothing is ready from `i` on.
heard-nothing :
    (r : Round) (server_sock j rounds i : ℕ)
    → ((k : ℕ) → i ≤ k → r.reads k ≡ false)
    → heard rounds i r server_sock j ≡ []
unfolding heard
heard-nothing r server_sock j zero i h = refl
heard-nothing r server_sock j (suc rounds) i h =
    rw (said-nothing r server_sock j i (inl (h i (omega arith))))
      (heard-nothing r server_sock j rounds (i + 1) (λ k l. h k (omega arith)))

module _ (setsize : ℕ) (r : Round) where
  visit-stop : (fuel i : ℕ) (s : Server) → s.max_fd < i → visit setsize (suc fuel) r i s ≡ running s
  unfolding visit
  visit-stop fuel i s h = let past : leb i s.max_fd ≡ false = ground arith in rw past refl

  visit-step :
      (fuel i : ℕ) (s t : Server)
      → i ≤ s.max_fd
      → handle setsize r i s ≡ running t
      → visit setsize (suc fuel) r i s ≡ visit setsize fuel r (i + 1) t
  unfolding visit
  visit-step fuel i s t h e =
      let more : leb i s.max_fd ≡ true = ground arith in rw more (rw (e, visit) refl)

  -- Enough fuel is left for the descriptors from `i` on.
  visit-Handled :
      (fuel i : ℕ) (s : Server)
      → IsValid setsize s
      → ((k : ℕ) → r.reads k ≡ true → k ≤ s.max_fd)
      → (r.reads s.server_sock ≡ true → (c : ℕ) × (r.accepted ≡ some c) × (1 ≤ c) × (c < setsize))
      → ((k : ℕ) → r.broken k ≡ false)
      → i ≤ setsize
      → setsize < i + fuel
      → (t : Server) × (visit setsize fuel r i s ≡ running t)
        × Handled setsize r (heard fuel i r s.server_sock) s t
  unfolding heard
  visit-Handled zero i s v b a w l f = absurd (omega arith)
  visit-Handled (suc fuel) i s v b a w l f = elim (dec_lt s.max_fd i) [
    | yes past ↦ (
      s,
      visit-stop fuel i s past,
      Handled-congr setsize r (λ j. []) (heard (suc fuel) i r s.server_sock) s s
          (λ j.
            sym (heard-nothing r s.server_sock j (suc fuel) i (λ k m. let n = b k in ground arith)))
          (Handled-refl setsize r s v),
    )
    | no more ↦
        let (t, e, h) = handle-Handled setsize r i s v (λ g d. a (ap r.reads (sym d) ∙ g)) w in
        let small = v.small in
        let grows = h.grows in
        let (u, e', h') =
          visit-Handled fuel (i + 1) t h.valid (λ k g. let m = b k g in omega arith)
            (λ g. a (ap r.reads (sym h.same) ∙ g)) w (omega arith) (omega arith) in
        (
          u,
          visit-step fuel i s t (omega arith) e ∙ e',
          Handled-congr setsize r
              (λ j. said r s.server_sock j i ++ heard fuel (i + 1) r t.server_sock j)
              (heard (suc fuel) i r s.server_sock) s u
              (λ j. ap (λ q. said r s.server_sock j i ++ heard fuel (i + 1) r q j) h.same)
              (Handled-trans setsize r _ _ s t u h h'),
        )
  ]

serve-Handled :
    (setsize : ℕ) (r : Round) (s : Server)
    → IsValid setsize s
    → IsPossible setsize s r
    → (t : Server) × (serve setsize (ready r) s ≡ running t)
      × Handled setsize r (heard setsize 1 r s.server_sock) s t
unfolding serve
serve-Handled setsize r s v p =
    let small = v.small in
    visit-Handled setsize r setsize 1 s v (λ k g. v.bounded k (p.reads k g)) p.accepts p.unbroken
      (omega arith) (omega arith)

-- The server as it is between two rounds.
pub data Reach (setsize server_sock : ℕ) : Server → Type 0 where
  here : Reach setsize server_sock (start server_sock)
  next :
      {s t : Server} {r : Round}
      → Reach setsize server_sock s
      → IsPossible setsize s r
      → serve setsize (ready r) s ≡ running t
      → Reach setsize server_sock t

start-IsValid :
    (setsize server_sock : ℕ)
    → 1 ≤ server_sock
    → server_sock < setsize
    → IsValid setsize (start server_sock)
start-IsValid setsize server_sock l k = record {
  server = ground arith;
  positive = λ m (e : (m == server_sock) ≡ true). ground arith;
  bounded = λ m (e : (m == server_sock) ≡ true). ground arith;
  small = k;
}

Reach-IsValid :
    (setsize server_sock : ℕ)
    → 1 ≤ server_sock
    → server_sock < setsize
    → {s : Server} → Reach setsize server_sock s
    → IsValid setsize s
Reach-IsValid setsize server_sock l k here = start-IsValid setsize server_sock l k
Reach-IsValid setsize server_sock l k (next {s} {t} {r} before p e) =
    let (t', e', h) = serve-Handled setsize r s (Reach-IsValid setsize server_sock l k before) p in
    let same : t' ≡ t = cc (sym e' ∙ e) in subst (IsValid setsize) same h.valid

pub Reach-server_sock :
    (setsize server_sock : ℕ)
    → 1 ≤ server_sock
    → server_sock < setsize
    → {s : Server} → Reach setsize server_sock s
    → s.server_sock ≡ server_sock
Reach-server_sock setsize server_sock l k here = refl
Reach-server_sock setsize server_sock l k (next {s} {t} {r} before p e) =
    let (t', e', h) = serve-Handled setsize r s (Reach-IsValid setsize server_sock l k before) p in
    let same : t' ≡ t = cc (sym e' ∙ e) in
    ap (λ (q : Server). q.server_sock) (sym same)
    ∙ h.same
    ∙ Reach-server_sock setsize server_sock l k before

-- In every state that the server reaches from a listening socket that is not 0 and fits into an `fd_set`,
-- by rounds in which `select` leaves members of the set, `accept` gives descriptors that fit too and no `send` raises
-- SIGPIPE, such a
-- round ends and the server goes on: all descriptors of the set are again from 1 to `max_fd`, which fits.
-- A client for which `recv` does not fail stays in the set, also when `recv` gives 0 bytes because it has
-- hung up, and it is sent exactly what the other ready clients said, in the order of their descriptors.
pub serve-heard :
    (setsize server_sock : ℕ) {s : Server} (r : Round) (j : ℕ)
    → 1 ≤ server_sock
    → server_sock < setsize
    → Reach setsize server_sock s
    → IsPossible setsize s r
    → IsClient s j
    → Stays r j
    → (t : Server) × (serve setsize (ready r) s ≡ running t)
      × IsValid setsize t
      × IsClient t j
      × (inbox j t.sent ≡ inbox j s.sent ++ heard setsize 1 r s.server_sock j)
serve-heard setsize server_sock {s} r j l k before p c st =
    let (t, e, h) = serve-Handled setsize r s (Reach-IsValid setsize server_sock l k before) p in
    (t, e, h.valid, h.keeps j c st, h.hears j c st)
