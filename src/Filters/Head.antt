-- ===== src/Filters/Head.antt =====
-- section07/head1.c, head2.c and head3.c: the first lines of a file.
use Prim.Native.Nat.{min}
use c_study.Base.{
  ℕ, zero, suc, ◌-◌, ◌<◌, ◌≡◌, refl, ◌⊎◌, inl, inr, List, [], ◌∷◌, ◌++◌, Option, none, some, arith,
  ◌==◌, if◌then◌else◌, map,
}
use c_study.Base.Int.{ℤ, pos, negsuc}
use c_study.Filters.Input.{Bytes, newline, newlines}

-- What was written, and what was left in the file.
pub record Headed : Type 0 where
  pub out : Bytes
  pub rest : Bytes

-- The loop of do_head, with `lines` at least 1.
unfoldable pub head_loop : Bytes → ℕ → Headed
head_loop [] lines = record { out = []; rest = [] }
head_loop (c ∷ s) lines =
    let more = head_loop s (if c == newline then lines - 1 else lines) in
    let again : Headed = record { out = c ∷ more.out; rest = more.rest } in
    if c == newline
    then (if lines - 1 == 0 then (record { out = c ∷ []; rest = s }) else again)
    else again

-- do_head, the same in all three programs; `lines` is a long.
unfoldable pub do_head : Bytes → ℤ → Headed
unfolding head_loop
do_head s (negsuc k) = record { out = []; rest = s }
do_head s (pos zero) = record { out = []; rest = s }
do_head s (pos (suc k)) = head_loop s (suc k)

-- An option as `getopt_long` of head3.c gives it: -n with the value that `atol` reads, -h, or another.
pub data Given : Type 0 where
  opt_n : ℤ → Given
  opt_h : Given
  unknown : Given

-- What the loop over the options ends with: an exit status, or the number of lines.
pub data Parsed : Type 0 where
  exit : ℕ → Parsed
  use_lines : ℤ → Parsed

abbrev pub default_lines : ℤ
default_lines = pos 10

unfoldable pub parse_options : List Given → ℤ → Parsed
parse_options [] count = use_lines count
parse_options (opt_n count' ∷ given) count = parse_options given count'
parse_options (opt_h ∷ given) count = exit 0
parse_options (unknown ∷ given) count = exit 1

-- What `main` writes for its files, of which `none` does not open, and its exit status.
pub record Ran : Type 0 where
  pub out : Bytes
  pub status : ℕ

unfoldable pub head_files : List (Option Bytes) → ℤ → Ran
head_files [] count = record { out = []; status = 0 }
head_files (none ∷ files) count = record { out = []; status = 1 }
head_files (some s ∷ files) count =
    let more = head_files files count in
    record { out = (do_head s count).out ++ more.out; status = more.status }

-- `main` of head3.c after its options; `stdin` is the standard input.
unfoldable pub head3 : List Given → List (Option Bytes) → Bytes → Ran
unfolding parse_options head_files
head3 given files stdin = elim (parse_options given default_lines) [
  | exit status ↦ record { out = []; status = status }
  | use_lines count ↦ elim files [
    | [] ↦ record { out = (do_head stdin count).out; status = 0 }
    | f ∷ fs ↦ head_files (f ∷ fs) count
  ]
]

head_loop-append : (s : Bytes) (k : ℕ) → (head_loop s k).out ++ (head_loop s k).rest ≡ s
unfolding head_loop
head_loop-append [] k = refl
head_loop-append (c ∷ s) k = ground (arith, head_loop-append s k, head_loop-append s (k - 1))

head_loop-newlines : (s : Bytes) (k : ℕ) → 0 < k → newlines (head_loop s k).out ≡ min k (newlines s)
unfolding head_loop newlines
head_loop-newlines [] k p = omega arith
head_loop-newlines (c ∷ s) k p =
    ground (arith, head_loop-newlines s k p, head_loop-newlines s (k - 1))

-- The bytes end with a newline.
unfoldable pub Closed : Bytes → Type 0
Closed [] = ⊥
Closed (c ∷ []) = c ≡ newline
Closed (c ∷ d ∷ s) = Closed (d ∷ s)

Closed-cons : (c : ℕ) (s : Bytes) → Closed s → Closed (c ∷ s)
unfolding Closed
Closed-cons c [] e = absurd e
Closed-cons c (d ∷ s) e = e

Closed-newline : (c : ℕ) → c ≡ newline → Closed (c ∷ [])
unfolding Closed
Closed-newline c e = e

head_loop-Closed :
    (s : Bytes) (k : ℕ) → 0 < k → ((head_loop s k).rest ≡ []) ⊎ Closed (head_loop s k).out
unfolding head_loop
head_loop-Closed [] k p = inl refl
head_loop-Closed (c ∷ s) k p =
    let tail_same = Closed-cons c (head_loop s k).out in
    let tail_fewer = Closed-cons c (head_loop s (k - 1)).out in
    ground (
      arith,
      head_loop-Closed s k p,
      head_loop-Closed s (k - 1),
      tail_same,
      tail_fewer,
      Closed-newline c,
    )

abbrev pub count : ℤ → ℕ
count (pos k) = k
count (negsuc k) = 0

min-zero : (s : Bytes) → 0 ≡ min 0 (newlines s)
min-zero s = omega arith

-- do_head writes a first part of the file and leaves the rest of it. It writes as many newlines as it is
-- asked for, or all that the file has. It writes nothing when asked for no line or for a negative
-- number, and otherwise it stops after a newline or at the end of the file.
do_head-append :
    (s : Bytes) (lines : ℤ)
    → ((do_head s lines).out ++ (do_head s lines).rest ≡ s)
      × (newlines (do_head s lines).out ≡ min (count lines) (newlines s))
      × (((count lines ≡ 0) × ((do_head s lines).out ≡ []))
          ⊎ ((0 < count lines) × (((do_head s lines).rest ≡ []) ⊎ Closed (do_head s lines).out)))
unfolding do_head newlines
do_head-append s (negsuc k) = (refl, min-zero s, inl (refl, refl))
do_head-append s (pos zero) = (refl, min-zero s, inl (refl, refl))
do_head-append s (pos (suc k)) = (
  head_loop-append s (suc k),
  head_loop-newlines s (suc k) (omega arith),
  inr (omega arith, head_loop-Closed s (suc k) (omega arith)),
)

parse_options-append :
    (counts : List ℤ) (given : List Given) (k l : ℤ)
    → (parse_options (map opt_n counts ++ opt_n l ∷ given) k ≡ parse_options given l)
      × (parse_options (map opt_n counts ++ opt_h ∷ given) k ≡ exit 0)
      × (parse_options (map opt_n counts ++ unknown ∷ given) k ≡ exit 1)
unfolding parse_options
parse_options-append [] given k l = (refl, refl, refl)
parse_options-append (count' ∷ counts) given k l = parse_options-append counts given count' l

-- head3 obeys the last of its -n options, and without one it writes ten lines; it then writes one file
-- after another. A help or an unknown option after them, whatever follows it, makes it end with nothing
-- written and the status 0 or 1.
head3-opt_n :
    (counts : List ℤ) (last : ℤ) (s t stdin : Bytes) (given : List Given)
    (files : List (Option Bytes))
    → (head3 (map opt_n counts ++ opt_n last ∷ []) (some s ∷ some t ∷ []) stdin
        ≡ record { out = (do_head s last).out ++ ((do_head t last).out ++ []); status = 0 })
      × (head3 [] [] stdin ≡ record { out = (do_head stdin (pos 10)).out; status = 0 })
      × (head3 (map opt_n counts ++ opt_h ∷ given) files stdin ≡ record { out = []; status = 0 })
      × (head3 (map opt_n counts ++ unknown ∷ given) files stdin ≡ record { out = []; status = 1 })
unfolding head3 parse_options head_files
head3-opt_n counts last s t stdin given files =
    let (obeyed, _, _) = parse_options-append counts [] default_lines last in
    let (_, helped, refused) = parse_options-append counts given default_lines last in
    (rw (obeyed, head3) refl, refl, rw (helped, head3) refl, rw (refused, head3) refl)
