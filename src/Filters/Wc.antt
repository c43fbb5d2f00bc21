-- ===== src/Filters/Wc.antt =====
-- section05/wc.c and section06/wc2.c: counting lines.
use c_study.Base.{
  ℕ, ◌+◌, ◌%◌, ◌^◌, ◌<◌, ◌≡◌, refl, ◌∙◌, ap, List, [], ◌∷◌, Option, none, some, arith, ◌==◌, map,
  if◌then◌else◌,
}
use c_study.Filters.Input.{
  Bytes, newline, Read, eintr, failure, got, content, newlines, newlines-append,
}

-- The `for` loop over the buffer; `lines` is a size_t.
unfoldable pub count_buffer : Bytes → ℕ → ℕ
count_buffer [] lines = lines
count_buffer (c ∷ buffer) lines =
    count_buffer buffer (if c == newline then (lines + 1) % 2 ^ 64 else lines)

-- do_wc of wc.c, from the count so far. Every error is tried again.
unfoldable pub do_wc : List Read → ℕ → ℕ
unfolding count_buffer
do_wc [] lines = lines
do_wc (eintr ∷ fd) lines = do_wc fd lines
do_wc (failure ∷ fd) lines = do_wc fd lines
do_wc (got [] ∷ fd) lines = lines
do_wc (got (c ∷ buffer) ∷ fd) lines = do_wc fd (count_buffer (c ∷ buffer) lines)

-- The loop of wc2.c over `fgetc`. `lines` is an int, so this holds for fewer than 2^31 lines.
unfoldable pub wc2_loop : Bytes → ℕ → ℕ
wc2_loop [] lines = lines
wc2_loop (c ∷ s) lines = wc2_loop s (if c == newline then lines + 1 else lines)

-- What `main` prints: the lines of each file, and the total, if no file failed to open.
pub record Printed : Type 0 where
  pub files : List ℕ
  pub total : Option ℕ

-- The loop of `main` of wc.c over its arguments; `none` is a file that does not open.
unfoldable pub wc_files : List (Option (List Read)) → ℕ → Printed
wc_files [] total = record { files = []; total = some total }
wc_files (none ∷ files) total = record { files = []; total = none }
wc_files (some fd ∷ files) total =
    let lines = do_wc fd 0 in
    let rest = wc_files files ((total + lines) % 2 ^ 64) in
    record { files = lines ∷ rest.files; total = rest.total }

count_buffer-newlines :
    (s : Bytes) (lines : ℕ) → lines < 2 ^ 64 → count_buffer s lines ≡ (lines + newlines s) % 2 ^ 64
unfolding count_buffer newlines
count_buffer-newlines [] lines h = omega arith
count_buffer-newlines (c ∷ s) lines h =
    ground (arith, count_buffer-newlines s lines h, count_buffer-newlines s ((lines + 1) % 2 ^ 64))

newlines-nil : newlines [] ≡ 0
unfolding newlines
newlines-nil = refl

-- However the calls of `read` cut the file into pieces, and wherever they are interrupted or fail in
-- between, do_wc adds the number of newlines up to the end of the file, modulo 2^64.
do_wc-newlines :
    (fd : List Read) (lines : ℕ)
    → lines < 2 ^ 64
    → do_wc fd lines ≡ (lines + newlines (content fd)) % 2 ^ 64
unfolding do_wc content
do_wc-newlines [] lines h = omega (arith, newlines-nil)
do_wc-newlines (eintr ∷ fd) lines h = do_wc-newlines fd lines h
do_wc-newlines (failure ∷ fd) lines h = do_wc-newlines fd lines h
do_wc-newlines (got [] ∷ fd) lines h = omega (arith, newlines-nil)
do_wc-newlines (got (c ∷ buffer) ∷ fd) lines h = omega (
  arith,
  count_buffer-newlines (c ∷ buffer) lines h,
  newlines-append (c ∷ buffer) (content fd),
  do_wc-newlines fd (count_buffer (c ∷ buffer) lines),
)

wc2_loop-newlines : (s : Bytes) (lines : ℕ) → wc2_loop s lines ≡ lines + newlines s
unfolding wc2_loop newlines
wc2_loop-newlines [] lines = omega arith
wc2_loop-newlines (c ∷ s) lines =
    ground (arith, wc2_loop-newlines s lines, wc2_loop-newlines s (lines + 1))

-- wc and wc2 count the same lines of a file of fewer than 2^31 newlines, the range of the int in wc2.
do_wc-wc2_loop :
    (fd : List Read) → newlines (content fd) < 2 ^ 64 → do_wc fd 0 ≡ wc2_loop (content fd) 0
do_wc-wc2_loop fd h = omega (arith, do_wc-newlines fd 0, wc2_loop-newlines (content fd) 0)

abbrev sum : List ℕ → ℕ
sum [] = 0
sum (n ∷ ns) = n + sum ns

-- If every file opens, wc prints for each the count of do_wc, in the order of the arguments, and their
-- sum modulo 2^64 as the total.
wc_files-sum :
    (fds : List (List Read)) (total : ℕ)
    → total < 2 ^ 64
    → ((wc_files (map some fds) total).files ≡ map (λ fd. do_wc fd 0) fds)
      × ((wc_files (map some fds) total).total
          ≡ some ((total + sum (map (λ fd. do_wc fd 0) fds)) % 2 ^ 64))
unfolding wc_files
wc_files-sum [] total h = (refl, ground arith)
wc_files-sum (fd ∷ fds) total h =
    let (printed, sums) = wc_files-sum fds ((total + do_wc fd 0) % 2 ^ 64) (omega arith) in
    (ap (◌∷◌ (do_wc fd 0)) printed, sums ∙ ap some (omega arith))
