-- ===== src/Lru/Evict.antt =====
-- The scan of LRUCacheRemoveLeastUsedItem over all chains.
use c_study.Base.{
  ℕ, zero, suc, ◌≤◌, ◌<◌, ◌≡◌, refl, [], ◌∷◌, Option, none, some, arith, All, All-map, ltb,
  Bool-cases, inl, inr,
}
use native.Mathlib.Decide.{dec_lt}
use c_study.Lru.Cache.{LruCacheItem, Chain, Least, visit, scan_chain, scan_table, no_least, int_max}
use c_study.Lru.Links.{At}

-- What `least_used` says: no item so far, or an item of a chain among the first `n`, with its
-- predecessor, its chain's index and its age.
abbrev pub Holds : (ℕ → Chain) → ℕ → Least → Option LruCacheItem → Type 0
Holds items n l none = l.least_age ≡ int_max
Holds items n l (some x) =
    (x.age ≡ l.least_age)
    × At x none l.least_prev (items l.least_index)
    × (l.least_index < n)
    × (x.age < int_max)

visit-le :
    (i : ℕ) (x : LruCacheItem) (q : Option ℕ) (l : Least)
    → ((visit i x q l).least_age ≤ l.least_age) × ((visit i x q l).least_age ≤ x.age)
unfolding visit
visit-le i x q l = ground arith

visit-Holds :
    (items : ℕ → Chain) (i : ℕ) (x : LruCacheItem) (q : Option ℕ) (l : Least)
    → At x none q (items i)
    → l.least_age ≤ int_max
    → Holds items (suc i) l l.least_used
    → Holds items (suc i) (visit i x q l) (visit i x q l).least_used
unfolding visit
visit-Holds items i x q l here s h = elim (Bool-cases (ltb x.age l.least_age)) [
  | inl e ↦ rw e (refl, here, omega arith, ground arith)
  | inr e ↦ rw e h
]

scan_chain-le :
    (i : ℕ) (chain : Chain) (q : Option ℕ) (l : Least)
    → (scan_chain i chain q l).least_age ≤ l.least_age
unfolding scan_chain
scan_chain-le i [] q l = omega arith
scan_chain-le i (x ∷ chain) q l =
    omega (arith, visit-le i x q l, scan_chain-le i chain (some x.addr) (visit i x q l))

scan_chain-All :
    (i : ℕ) (chain : Chain) (q : Option ℕ) (l : Least)
    → All (λ y. (scan_chain i chain q l).least_age ≤ y.age) chain
unfolding scan_chain
scan_chain-All i [] q l = tt
scan_chain-All i (x ∷ chain) q l = (
  omega (arith, visit-le i x q l, scan_chain-le i chain (some x.addr) (visit i x q l)),
  scan_chain-All i chain (some x.addr) (visit i x q l),
)

scan_chain-Holds :
    (items : ℕ → Chain) (i : ℕ) (chain : Chain) (q : Option ℕ) (l : Least)
    → ((x : LruCacheItem) (prev : Option ℕ) → At x q prev chain → At x none prev (items i))
    → l.least_age ≤ int_max
    → Holds items (suc i) l l.least_used
    → Holds items (suc i) (scan_chain i chain q l) (scan_chain i chain q l).least_used
unfolding scan_chain
scan_chain-Holds items i [] q l emb s h = h
scan_chain-Holds items i (x ∷ chain) q l emb s h =
    scan_chain-Holds items i chain (some x.addr) (visit i x q l) (λ y prev at. emb y prev (inr at))
      (omega (arith, visit-le i x q l)) (visit-Holds items i x q l (emb x q (inl (refl, refl))) s h)

Holds-suc :
    (items : ℕ → Chain) (n : ℕ) (l : Least) (used : Option LruCacheItem)
    → Holds items n l used
    → Holds items (suc n) l used
Holds-suc items n l none h = h
Holds-suc items n l (some x) h = (h.0, h.1, omega arith, h.3)

scan_table-le : (items : ℕ → Chain) (n : ℕ) → (scan_table items n no_least).least_age ≤ int_max
unfolding scan_table
scan_table-le items zero = omega arith
scan_table-le items (suc n) =
    omega
      (arith, scan_table-le items n, scan_chain-le n (items n) none (scan_table items n no_least))

-- The scan of the first `n` chains ends with an item of them, or found none younger than `int_max`.
pub scan_table-Holds :
    (items : ℕ → Chain) (n : ℕ)
    → Holds items n (scan_table items n no_least) (scan_table items n no_least).least_used
unfolding scan_table
scan_table-Holds items zero = refl
scan_table-Holds items (suc n) =
    let l = scan_table items n no_least in
    scan_chain-Holds items n (items n) none l (λ x prev at. at) (scan_table-le items n)
      (Holds-suc items n l l.least_used (scan_table-Holds items n))

-- The age that the scan ends with is the least of all.
pub scan_table-All :
    (items : ℕ → Chain) (n i : ℕ)
    → i < n
    → All (λ y. (scan_table items n no_least).least_age ≤ y.age) (items i)
unfolding scan_table
scan_table-All items zero i h = absurd (omega arith)
scan_table-All items (suc n) i h = elim (dec_lt i n) [
  | yes below ↦
      All-map _ _
        (λ y k. omega (arith, scan_chain-le n (items n) none (scan_table items n no_least)))
        (items i) (scan_table-All items n i below)
  | no last ↦
      let e : i ≡ n = omega arith in
      rw e (scan_chain-All n (items n) none (scan_table items n no_least))
]
