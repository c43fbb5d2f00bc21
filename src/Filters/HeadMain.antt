-- ===== src/Filters/HeadMain.antt =====
-- section07/head1.c and head2.c, `main`, against head3.c. `atol` and what `fopen` gives are arguments.
use c_study.Base.{◌≡◌, refl, List, [], ◌∷◌, Option, map}
use c_study.Base.Int.{ℤ}
use c_study.Filters.Input.{Bytes}
use c_study.Filters.Head.{
  Headed, do_head, default_lines, opt_n, Ran, head_files, head3, parse_options,
}

abbrev wrote : Headed → Ran
wrote h = record { out = h.out; status = 0 }

-- `main` of head1.c, which reads the standard input.
unfoldable pub head1 : (Bytes → ℤ) → List Bytes → Bytes → Ran
head1 atol [] stdin = record { out = []; status = 1 }
head1 atol (lines ∷ args) stdin = wrote (do_head stdin (atol lines))

-- `main` of head2.c
unfoldable pub head2 : (Bytes → ℤ) → (Bytes → Option Bytes) → List Bytes → Bytes → Ran
unfolding head_files
head2 atol fopen [] stdin = wrote (do_head stdin default_lines)
head2 atol fopen (lines ∷ names) stdin = head_files (map fopen names) (atol lines)

-- head3 with -n does what head1 does with its first argument, and with at least one file what head2 does
-- with a number and these files; without arguments it does what head2 does. But with a number and no file
-- head2 writes nothing, where head3 reads the standard input.
head2-head3 :
    (atol : Bytes → ℤ) (fopen : Bytes → Option Bytes) (lines name : Bytes) (names args : List Bytes)
    (stdin : Bytes)
    → (head1 atol (lines ∷ args) stdin ≡ head3 (opt_n (atol lines) ∷ []) [] stdin)
      × (head2 atol fopen (lines ∷ name ∷ names) stdin
          ≡ head3 (opt_n (atol lines) ∷ []) (map fopen (name ∷ names)) stdin)
      × (head2 atol fopen [] stdin ≡ head3 [] [] stdin)
      × (head2 atol fopen (lines ∷ []) stdin ≡ record { out = []; status = 0 })
unfolding head1 head2 head3 parse_options head_files
head2-head3 atol fopen lines name names args stdin = (refl, refl, refl, refl)
