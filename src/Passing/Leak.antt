-- ===== src/Passing/Leak.antt =====
-- The server closes nothing.
use mathlib.Core.Path.{subst}
use mathlib.Core.List.{append-nil, append_assoc}
use c_study.Base.{
  sym, ℕ, zero, suc, ◌+◌, ◌*◌, ◌≤◌, ◌<◌, ◌≡◌, refl, ap, ◌∙◌, List, [], ◌∷◌, ◌++◌, false, Option,
  none, some, length, arith, Bool-cases, Option-cases, inl, inr, ◌⊎◌,
}
use c_study.Passing.Programs.{
  Bytes, hello, Client, client_main, do_sendmsg, Round, Server, hand_over, round, start,
}

-- A call that makes a descriptor fails for a process that has `limit` of them.
abbrev Grants : ℕ → ℕ → Option ℕ → Type 0
Grants limit count none = Unit {0}
Grants limit count (some fd) = count < limit

-- The calls of this round keep to the limit.
pub record IsGranted (limit : ℕ) (s : Server) (r : Round) : Type 0 where
  pub accepts : Grants limit (length s.held) r.accepted
  pub opens : Grants limit (length s.held + 1) r.opened

-- The states of the loop of `main`.
pub data Reach (limit : ℕ) (held : List ℕ) (file : Bytes) : Server → Type 0 where
  here : Reach limit held file (start held file)
  next :
      {s : Server} (r : Round)
      → Reach limit held file s
      → s.ended ≡ false
      → IsGranted limit s r
      → Reach limit held file (round s r)

-- So many copies of the greeting.
pub copies : ℕ → Bytes
copies zero = []
copies (suc n) = hello ++ copies n

copies-snoc : (n : ℕ) → copies n ++ hello ≡ copies (suc n)
unfolding copies
copies-snoc zero = refl
copies-snoc (suc n) = append_assoc hello (copies n) hello ∙ ap (◌++◌ hello) (copies-snoc n)

-- Two descriptors for each client that was served, and one or two more if the server has ended by a failed
-- call.
record Leaked (limit base : ℕ) (file : Bytes) (s : Server) : Type 0 where
  fits : length s.held ≤ limit
  least : base + 2 * length s.handed ≤ length s.held
  exact : s.ended ≡ false → length s.held ≡ base + 2 * length s.handed
  greetings : ℕ
  written : greetings ≤ length s.handed
  text : s.text ≡ file ++ copies greetings

client_main-added : (c : Client) → ((client_main c).added ≡ hello) ⊎ ((client_main c).added ≡ [])
unfolding client_main
client_main-added c = ground arith

more_text :
    (n : ℕ) (file text : Bytes) (c : Client)
    → text ≡ file ++ copies n
    → (m : ℕ) × (m ≤ suc n) × (text ++ (client_main c).added ≡ file ++ copies m)
more_text n file text c e = elim (client_main-added c) [
  | inl h ↦ (
    suc n,
    omega arith,
    ap (λ b. text ++ b) h
        ∙ ap (λ b. b ++ hello) e
        ∙ append_assoc file (copies n) hello
        ∙ ap (λ b. file ++ b) (copies-snoc n),
  )
  | inr h ↦ (n, omega arith, ap (λ b. text ++ b) h ∙ append-nil text ∙ e)
]

module _ (limit base : ℕ) (file : Bytes) where
  -- `s` holds the socket of the client of this round.
  hand_over-Leaked :
      (s : Server) (r : Round) (n : ℕ)
      → length s.held ≡ base + 2 * length s.handed + 1
      → length s.held ≤ limit
      → n ≤ length s.handed
      → s.text ≡ file ++ copies n
      → s.ended ≡ false
      → Grants limit (length s.held) r.opened
      → Leaked limit base file (hand_over s r)
  unfolding hand_over do_sendmsg
  hand_over-Leaked s r n h l w e go g = elim (Option-cases r.opened) [
    | inl q ↦
        rw (q, hand_over)
          (record {
            fits = l;
            least = omega arith;
            exact = λ x. cc;
            greetings = n;
            written = w;
            text = e;
          })
    | inr (fd, q) ↦
        let room : length s.held < limit = subst (Grants limit (length s.held)) q g in
        elim (Bool-cases r.sent) [
          | inl y ↦
              let (m, k, t) = more_text n file s.text r.client e in
              rw (q, hand_over)
                (rw y (record {
                  fits = omega arith;
                  least = omega arith;
                  exact = λ x. omega arith;
                  greetings = m;
                  written = omega arith;
                  text = t;
                }))
          | inr y ↦
              rw (q, hand_over)
                (rw y (record {
                  fits = omega arith;
                  least = omega arith;
                  exact = λ x. cc;
                  greetings = n;
                  written = w;
                  text = e;
                }))
        ]
  ]

  round-Leaked :
      (s : Server) (r : Round)
      → Leaked limit base file s
      → s.ended ≡ false
      → IsGranted limit s r
      → Leaked limit base file (round s r)
  unfolding round
  round-Leaked s r v go g = elim (Option-cases r.accepted) [
    | inl q ↦
        rw (q, round)
          (record {
            fits = v.fits;
            least = v.least;
            exact = λ x. cc;
            greetings = v.greetings;
            written = v.written;
            text = v.text;
          })
    | inr (client, q) ↦
        let room : length s.held < limit = subst (Grants limit (length s.held)) q g.accepts in
        let exact = v.exact go in
        rw (q, round)
          (hand_over-Leaked (record s { held = client ∷ s.held }) r v.greetings (omega arith)
            (omega arith) v.written v.text go
            (subst (λ k. Grants limit k r.opened) (omega arith) g.opens))
  ]

start-Leaked :
    (limit : ℕ) (held : List ℕ) (file : Bytes)
    → length held ≤ limit
    → Leaked limit (length held) file (start held file)
unfolding copies
start-Leaked limit held file h = record {
  fits = h;
  least = omega arith;
  exact = λ x. omega arith;
  greetings = 0;
  written = omega arith;
  text = sym (append-nil file);
}

Reach-Leaked :
    (limit : ℕ) (held : List ℕ) (file : Bytes) {s : Server}
    → length held ≤ limit
    → Reach limit held file s
    → Leaked limit (length held) file s
Reach-Leaked limit held file h here = start-Leaked limit held file h
Reach-Leaked limit held file h (next {s} r before go g) =
    round-Leaked limit (length held) file s r (Reach-Leaked limit held file h before) go g

-- A server that may have `limit` descriptors, where calls that make one fail from there on: whatever else its
-- calls and its clients do, each client that it served has left it two descriptors more, so that it serves at
-- most half as many clients as it had room for descriptors when it began. The file has what it held when the
-- server began, then one greeting for some of these clients and nothing else.
pub served_bound :
    (limit : ℕ) (held : List ℕ) (file : Bytes) {s : Server}
    → length held ≤ limit
    → Reach limit held file s
    → (2 * length s.handed + length held ≤ length s.held)
      × (length s.held ≤ limit)
      × ((n : ℕ) × (n ≤ length s.handed) × (s.text ≡ file ++ copies n))
served_bound limit held file h r =
    let v = Reach-Leaked limit held file h r in
    let least = v.least in (omega arith, v.fits, (v.greetings, v.written, v.text))
