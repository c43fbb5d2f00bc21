-- ===== src/Snake/Cells.antt =====
-- snake01/main.cpp: lists of points as sets of cells.
use c_study.Base.{
  suc, ◌≡◌, refl, sym, ap, ◌∙◌, inl, inr, List, [], ◌∷◌, ◌++◌, true, false, ◌||◌, arith, length,
  All, Bool-cases,
}
use c_study.Snake.Point.{Point, same, contains, erase, pop_back}

pub same_iff : (p q : Point) → (same p q ≡ true → p ≡ q) × (p ≡ q → same p q ≡ true)
unfolding same
same_iff p q = (λ h. ground arith, λ h. ground arith)

pub same_comm : (p q : Point) → same p q ≡ same q p
unfolding same
same_comm p q = ground arith

-- No cell twice.
abbrev pub IsDistinct : List Point → Type 0
IsDistinct [] = Unit
IsDistinct (p ∷ ps) = (contains ps p ≡ false) × IsDistinct ps

-- No cell of `qs` is one of `ps`.
abbrev pub Apart : List Point → List Point → Type 0
Apart ps qs = All (λ q. contains ps q ≡ false) qs

pub contains-pop_back :
    (ps : List Point) (q : Point) → contains ps q ≡ false → contains (pop_back ps) q ≡ false
unfolding contains pop_back
contains-pop_back [] q h = refl
contains-pop_back (p ∷ []) q h = refl
contains-pop_back (p ∷ r ∷ ps) q h = ground (arith, contains-pop_back (r ∷ ps) q)

pub pop_back-IsDistinct : (ps : List Point) → IsDistinct ps → IsDistinct (pop_back ps)
unfolding pop_back
pop_back-IsDistinct [] h = tt
pop_back-IsDistinct (p ∷ []) h = tt
pop_back-IsDistinct (p ∷ r ∷ ps) h =
    (contains-pop_back (r ∷ ps) p h.0, pop_back-IsDistinct (r ∷ ps) h.1)

pub pop_back-All {ℓ} : (P : Point → Type ℓ) (ps : List Point) → All P ps → All P (pop_back ps)
unfolding pop_back
pop_back-All P [] h = tt
pop_back-All P (p ∷ []) h = tt
pop_back-All P (p ∷ r ∷ ps) h = (h.0, pop_back-All P (r ∷ ps) h.1)

pub length-pop_back : (p : Point) (ps : List Point) → length (pop_back (p ∷ ps)) ≡ length ps
unfolding pop_back
length-pop_back p [] = refl
length-pop_back p (r ∷ ps) = ap suc (length-pop_back r ps)

pub contains-erase :
    (ps : List Point) (p q : Point) → contains ps q ≡ false → contains (erase ps p) q ≡ false
unfolding contains erase
contains-erase [] p q h = refl
contains-erase (r ∷ ps) p q h = ground (arith, contains-erase ps p q)

pub contains-erase_ne :
    (ps : List Point) (p q : Point) → same p q ≡ false → contains (erase ps p) q ≡ contains ps q
unfolding contains erase
contains-erase_ne [] p q h = refl
contains-erase_ne (r ∷ ps) p q h = elim (Bool-cases (same r p)) [
  | inl t ↦ rw t (ground (arith, ap (λ s. same s q) ((same_iff r p).0 t)))
  | inr f ↦ ground (arith, contains-erase_ne ps p q)
]

pub erase-IsDistinct :
    (ps : List Point) (p : Point)
    → IsDistinct ps
    → IsDistinct (erase ps p) × (contains (erase ps p) p ≡ false)
unfolding contains erase
erase-IsDistinct [] p h = (tt, refl)
erase-IsDistinct (r ∷ ps) p h = elim (Bool-cases (same r p)) [
  | inl t ↦ rw t (h.1, sym (ap (contains ps) ((same_iff r p).0 t)) ∙ h.0)
  | inr f ↦
      let (distinct, gone) = erase-IsDistinct ps p h.1 in
      rw f ((contains-erase ps p r h.0, distinct), ground (arith, gone))
]

pub erase-All {ℓ} :
    (P : Point → Type ℓ) (ps : List Point) (p : Point) → All P ps → All P (erase ps p)
unfolding erase
erase-All P [] p h = tt
erase-All P (r ∷ ps) p h = elim (Bool-cases (same r p)) [
  | inl t ↦ rw (t, erase) h.1
  | inr f ↦ rw (f, erase) (h.0, erase-All P ps p h.1)
]

pub length-erase :
    (ps : List Point) (p : Point) → contains ps p ≡ true → suc (length (erase ps p)) ≡ length ps
unfolding contains erase
length-erase [] p h = cc
length-erase (r ∷ ps) p h = ground (arith, length-erase ps p)

pub contains-append :
    (ps : List Point) (q r : Point) → contains (ps ++ q ∷ []) r ≡ (contains ps r || same q r)
unfolding contains
contains-append [] q r = ground arith
contains-append (p ∷ ps) q r = ground (arith, contains-append ps q r)

pub append-IsDistinct :
    (ps : List Point) (q : Point)
    → contains ps q ≡ false
    → IsDistinct ps
    → IsDistinct (ps ++ q ∷ [])
unfolding contains
append-IsDistinct [] q h d = (refl, tt)
append-IsDistinct (p ∷ ps) q h d = (
  ground (arith, contains-append ps q p, same_comm p q),
  append-IsDistinct ps q (ground arith) d.1,
)

-- One more cell in front keeps away from the cells that do not hold it.
pub cons-Apart :
    (p : Point) (ps qs : List Point) → contains qs p ≡ false → Apart ps qs → Apart (p ∷ ps) qs
unfolding contains
cons-Apart p ps [] h a = tt
cons-Apart p ps (q ∷ qs) h a =
    (ground (arith, same_comm p q), cons-Apart p ps qs (ground arith) a.1)
