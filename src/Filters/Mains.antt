-- ===== src/Filters/Mains.antt =====
-- `main` of section05/cat.c and section05/wc.c.
use c_study.Base.{
  ℕ, ◌≡◌, refl, List, [], ◌∷◌, Bool, true, false, Option, none, some, map, if◌then◌else◌,
  Bool-cases, inl, inr,
}
use c_study.Filters.Input.{Read}
use c_study.Filters.Cat.{Write, Copied, before, do_cat, cat_files}
use c_study.Filters.Wc.{do_wc, Printed, wc_files}

-- What the calls for one file give: the reads, the writes, and whether `close` succeeds.
pub record Source : Type 0 where
  pub fd : List Read
  pub writes : List Write
  pub closes : Bool

-- `close`, and the rest of the loop of cat.c; a `close` that fails ends the program.
unfoldable pub after_close : Bool → Copied → Copied
after_close closes rest = if closes then rest else record { out = []; exited = true }

-- The loop of `main` of cat.c over its arguments; `none` is a file that does not open.
unfoldable pub cat_arguments : List (Option Source) → Copied
unfolding do_cat after_close
cat_arguments [] = record { out = []; exited = false }
cat_arguments (none ∷ files) = record { out = []; exited = true }
cat_arguments (some f ∷ files) =
    let copied = do_cat f.fd f.writes in
    let rest = cat_arguments files in
    elim copied.exited [ true ↦ copied | false ↦ before copied.out (after_close f.closes rest) ]

-- `main` of cat.c with its standard input and its arguments.
unfoldable pub cat_main : Source → List (Option Source) → Copied
unfolding do_cat cat_arguments
cat_main stdin [] = do_cat stdin.fd stdin.writes
cat_main stdin (f ∷ files) = cat_arguments (f ∷ files)

abbrev closed : Option (List Read × List Write) → Option Source
closed none = none
closed (some (fd, writes)) = some (record { fd = fd; writes = writes; closes = true })

-- Where `close` never fails, the loop is that of cat_files with do_cat for each file.
cat_arguments-cat_files :
    (files : List (Option (List Read × List Write)))
    → cat_arguments (map closed files) ≡ cat_files (λ f. do_cat f.0 f.1) files
unfolding cat_arguments cat_files after_close
cat_arguments-cat_files [] = refl
cat_arguments-cat_files (none ∷ files) = refl
cat_arguments-cat_files (some (fd, writes) ∷ files) = elim (Bool-cases (do_cat fd writes).exited) [
  | inl e ↦ rw (e, cat_arguments, cat_files) refl
  | inr e ↦ rw (e, cat_arguments, cat_files) (rw (cat_arguments-cat_files files) refl)
]

-- What `main` of wc.c prints: the lines of the standard input alone, or those of each file with the total.
pub data Report : Type 0 where
  alone : (lines : ℕ) → Report
  listed : (printed : Printed) → Report

unfoldable pub wc_main : List Read → List (Option (List Read)) → Report
unfolding do_wc wc_files
wc_main stdin [] = alone (do_wc stdin 0)
wc_main stdin (f ∷ files) = listed (wc_files (f ∷ files) 0)
