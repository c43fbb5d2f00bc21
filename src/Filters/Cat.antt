-- ===== src/Filters/Cat.antt =====
-- section05/cat.c and section06/cat2.c: copying files to the standard output.
use c_study.Base.{
  ℕ, ◌<◌, ◌≡◌, refl, sym, ◌∙◌, ap, List, [], ◌∷◌, ◌++◌, Bool, true, false, Option, none, some,
  arith, length, length-append, length-take, take, All, map,
}
use c_study.Filters.Input.{Bytes, Read, eintr, failure, got, content}

-- One call of `write(1, buf, n)`: all bytes, the first `k` of them, or an error. After the end of a
-- list of writes all bytes are written.
pub data Write : Type 0 where
  full : Write
  short : (k : ℕ) → Write
  failed : Write

-- The bytes written, and whether the program stopped with `exit(1)`.
pub record Copied : Type 0 where
  pub out : Bytes
  pub exited : Bool

-- Bytes written before the others.
abbrev pub before : Bytes → Copied → Copied
before s c = record { out = s ++ c.out; exited = c.exited }

-- do_cat of cat.c
unfoldable pub do_cat : List Read → List Write → Copied
do_cat [] ws = record { out = []; exited = false }
do_cat (eintr ∷ fd) ws = do_cat fd ws
do_cat (failure ∷ fd) ws = record { out = []; exited = true }
do_cat (got [] ∷ fd) ws = record { out = []; exited = false }
do_cat (got (c ∷ buf) ∷ fd) [] = before (c ∷ buf) (do_cat fd [])
do_cat (got (c ∷ buf) ∷ fd) (full ∷ ws) = before (c ∷ buf) (do_cat fd ws)
do_cat (got (c ∷ buf) ∷ fd) (short k ∷ ws) = before (take k (c ∷ buf)) (do_cat fd ws)
do_cat (got (c ∷ buf) ∷ fd) (failed ∷ ws) = record { out = []; exited = true }

-- do_cat of cat2.c: `fgetc` and `fputc`, byte by byte.
unfoldable pub do_cat2 : Bytes → Bytes
do_cat2 [] = []
do_cat2 (c ∷ s) = c ∷ do_cat2 s

-- The loop of `main` over the files: `copy` writes a file's bytes, and `none` does not open.
-- Closing a file is taken to succeed.
unfoldable pub cat_files {ℓ} : {A : Type ℓ} → (A → Copied) → List (Option A) → Copied
cat_files copy [] = record { out = []; exited = false }
cat_files copy (none ∷ files) = record { out = []; exited = true }
cat_files copy (some f ∷ files) =
    let rest = before (copy f).out (cat_files copy files) in
    elim (copy f).exited [ true ↦ copy f | false ↦ rest ]

abbrev pub IsGood : Read → Type 0
IsGood failure = ⊥
IsGood _ = Unit

abbrev pub IsFull : Write → Type 0
IsFull full = Unit
IsFull _ = ⊥

before-content :
    (s : Bytes) (c : Copied) (t : Bytes)
    → c ≡ record { out = t; exited = false }
    → before s c ≡ record { out = s ++ t; exited = false }
before-content s c t e = ap (before s) e

-- Where no read fails and every write is whole, do_cat copies the file, however its reads cut it, and
-- does not exit.
do_cat-content :
    (fd : List Read) (ws : List Write)
    → All IsGood fd
    → All IsFull ws
    → do_cat fd ws ≡ record { out = content fd; exited = false }
unfolding do_cat content
do_cat-content [] ws g h = refl
do_cat-content (eintr ∷ fd) ws g h = do_cat-content fd ws g.1 h
do_cat-content (failure ∷ fd) ws g h = absurd g.0
do_cat-content (got [] ∷ fd) ws g h = refl
do_cat-content (got (c ∷ buf) ∷ fd) [] g h =
    before-content (c ∷ buf) (do_cat fd []) (content fd) (do_cat-content fd [] g.1 tt)
do_cat-content (got (c ∷ buf) ∷ fd) (full ∷ ws) g h =
    before-content (c ∷ buf) (do_cat fd ws) (content fd) (do_cat-content fd ws g.1 h.1)
do_cat-content (got (c ∷ buf) ∷ fd) (short k ∷ ws) g h = absurd h.0
do_cat-content (got (c ∷ buf) ∷ fd) (failed ∷ ws) g h = absurd h.0

-- If a write takes only the first `k` bytes of a buffer that has more, the others are not written
-- again: with whole writes and good reads from there on, do_cat ends without an error and the output
-- lacks them.
do_cat-short :
    (c : ℕ) (buf : Bytes) (k : ℕ) (fd : List Read) (ws : List Write)
    → k < length (c ∷ buf)
    → All IsGood fd
    → All IsFull ws
    → (do_cat (got (c ∷ buf) ∷ fd) (short k ∷ ws)
        ≡ record { out = take k (c ∷ buf) ++ content fd; exited = false })
      × (length (take k (c ∷ buf) ++ content fd) < length (content (got (c ∷ buf) ∷ fd)))
unfolding do_cat content
do_cat-short c buf k fd ws h g f = (
  before-content (take k (c ∷ buf)) (do_cat fd ws) (content fd) (do_cat-content fd ws g f),
  omega (
    arith,
    length-take k (c ∷ buf),
    length-append (take k (c ∷ buf)) (content fd),
    length-append buf (content fd),
  ),
)

do_cat2_lem : (s : Bytes) → do_cat2 s ≡ s
unfolding do_cat2
do_cat2_lem [] = refl
do_cat2_lem (c ∷ s) = ap (◌∷◌ c) (do_cat2_lem s)

-- cat.c and cat2.c write the same for a file, where no read fails and every write is whole.
do_cat-do_cat2 :
    (fd : List Read) (ws : List Write)
    → All IsGood fd
    → All IsFull ws
    → (do_cat fd ws).out ≡ do_cat2 (content fd)
do_cat-do_cat2 fd ws g h =
    ap (λ c. c.out) (do_cat-content fd ws g h) ∙ sym (do_cat2_lem (content fd))

abbrev concat : List Bytes → Bytes
concat [] = []
concat (s ∷ ss) = s ++ concat ss

-- What cat2.c does with a file.
abbrev pub copy2 : Bytes → Copied
copy2 s = record { out = do_cat2 s; exited = false }

-- cat2 with files of which the first ones open: it writes these one after another; if a further file
-- follows that does not open, it exits with 1 at that file, and otherwise it does not.
cat_files-copy2 :
    (files : List Bytes) (later : List (Option Bytes))
    → (cat_files copy2 (map some files) ≡ record { out = concat files; exited = false })
      × (cat_files copy2 (map some files ++ none ∷ later)
          ≡ record { out = concat files; exited = true })
unfolding cat_files
cat_files-copy2 [] later = (refl, refl)
cat_files-copy2 (f ∷ files) later =
    let (a, b) = cat_files-copy2 files later in (rw (do_cat2_lem f, a), rw (do_cat2_lem f, b))
