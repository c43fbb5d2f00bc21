-- ===== src/Uv/Blocks.antt =====
-- Blocks counted as often as they occur.
use c_study.Base.{
  ℕ, zero, suc, ◌+◌, ◌≤◌, ◌≡◌, refl, false, ap, sym, ◌∙◌, List, [], ◌∷◌, ◌++◌, some, arith, length,
  ◌==◌, if◌then◌else◌, bind_some, Bool-cases, inl, inr,
}
use c_study.Uv.Server.{Request, release, take_request}

-- 1 for the same address.
pub hit : ℕ → ℕ → ℕ
hit a p = if p == a then 1 else 0

pub hit_self : (p : ℕ) → hit p p ≡ 1
unfolding hit
hit_self p = ground arith

hit_other : (a p : ℕ) → (a == p) ≡ false → hit a p ≡ 0
unfolding hit
hit_other a p e = ground arith

pub occurrences : ℕ → List ℕ → ℕ
occurrences a [] = 0
occurrences a (p ∷ ps) = hit a p + occurrences a ps

pub occurrences-cons : (a p : ℕ) (ps : List ℕ) → occurrences a (p ∷ ps) ≡ hit a p + occurrences a ps
unfolding occurrences
occurrences-cons a p ps = refl

pub occurrences-nil : (a : ℕ) → occurrences a [] ≡ 0
unfolding occurrences
occurrences-nil a = refl

-- A `free` of a block that is there takes it away once.
pub release_lem :
    (p : ℕ) (live : List ℕ)
    → 1 ≤ occurrences p live
    → (live' : List ℕ) × (release p live ≡ some live')
      × (length live ≡ suc (length live'))
      × ((a : ℕ) → occurrences a live ≡ hit a p + occurrences a live')
unfolding release occurrences
release_lem p [] h = absurd (omega arith)
release_lem p (q ∷ live) h = elim (Bool-cases (p == q)) [
  | inl e ↦
      let same : p ≡ q = ground arith in
      (live, rw e refl, refl, λ a. ap (λ x. hit a x + occurrences a live) (sym same))
  | inr e ↦
      let other : hit p q ≡ 0 = hit_other p q e in
      let (live', r, l, c) = release_lem p live (omega arith) in
      (q ∷ live', rw e (rw (r, release) refl), omega arith, λ a. omega (arith, c a))
]

-- The blocks of the pending requests.
pub owned : List Request → List ℕ
owned [] = []
owned (r ∷ pending) = r.req ∷ r.buf ∷ owned pending

pub occurrences-append :
    (a : ℕ) (ps qs : List ℕ) → occurrences a (ps ++ qs) ≡ occurrences a ps + occurrences a qs
unfolding occurrences
occurrences-append a [] qs = omega arith
occurrences-append a (p ∷ ps) qs = omega (arith, occurrences-append a ps qs)

pub owned-nil : owned [] ≡ []
unfolding owned
owned-nil = refl

pub owned-snoc :
    (a : ℕ) (pending : List Request) (r : Request)
    → occurrences a (owned (pending ++ r ∷ []))
      ≡ occurrences a (owned pending) + (hit a r.req + hit a r.buf)
unfolding owned occurrences
owned-snoc a [] r = omega arith
owned-snoc a (q ∷ pending) r = omega (arith, owned-snoc a pending r)

-- A request that is taken out takes its two blocks along.
pub take_request-owned :
    (index : ℕ) (pending : List Request) {r : Request} {rest : List Request}
    → take_request index pending ≡ some (r, rest)
    → (length pending ≡ suc (length rest))
      × ((a : ℕ)
          → occurrences a (owned pending)
            ≡ hit a r.req + (hit a r.buf + occurrences a (owned rest)))
unfolding take_request owned occurrences
take_request-owned index [] e = cc
take_request-owned zero (q ∷ pending) {r} {rest} e =
    let first : q ≡ r = cc e in
    let others : pending ≡ rest = cc e in
    (
      ap (λ l. suc (length l)) others,
      λ a.
          ap (λ x. hit a x.req + (hit a x.buf + occurrences a (owned pending))) first
          ∙ ap (λ l. hit a r.req + (hit a r.buf + occurrences a (owned l))) others,
    )
take_request-owned (suc index) (q ∷ pending) {r} {rest} e =
    let ((r', rest'), found, same) = bind_some (take_request index pending) _ e in
    let (l, c) = take_request-owned index pending {r = r'} {rest = rest'} found in
    let first : r' ≡ r = cc same in
    let others : q ∷ rest' ≡ rest = cc same in
    (
      omega (arith, ap length others),
      λ a. omega (
        arith,
        c a,
        ap (λ (x : Request). hit a x.req) first,
        ap (λ (x : Request). hit a x.buf) first,
        ap (λ (k : List Request). occurrences a (owned k)) others,
      ),
    )
