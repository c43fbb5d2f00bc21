-- ===== src/Filters/LastLines.antt =====
-- section07/tail1.c: which lines are printed.
use native.Mathlib.Decide.{dec_lt}
use mathlib.Core.List.{append_assoc, append-nil}
use c_study.Base.{
  ℕ, zero, suc, ◌+◌, ◌-◌, ◌%◌, ◌^◌, ◌≤◌, ◌<◌, ◌≡◌, refl, ◌∙◌, sym, ap, ◌≢◌, List, [], ◌∷◌, ◌++◌,
  some, arith, length, drop, All, ◌⊎◌, inl, inr, ltb, if◌then◌else◌,
}
use c_study.Filters.Input.{Bytes, newline}
use c_study.Filters.Tail.{Lines, put, Reading, terminate, read_all, print_lines, tail1}
use c_study.Filters.Ring.{
  IsLine, c_text_all, text_of, between, fill, put-ne, put-eq, read_all-fill, fill-old, nth,
  fill-nth,
}

text_of-drop :
    (ws : List Bytes) (d : ℕ)
    → d < length ws
    → text_of (drop d ws) ≡ nth ws d ++ text_of (drop (suc d) ws)
unfolding text_of
text_of-drop [] d h = absurd (omega arith)
text_of-drop (w ∷ ws) zero h = refl
text_of-drop (w ∷ ws) (suc d) h = text_of-drop ws d (omega arith)

drop-length : (ws : List Bytes) → drop (length ws) ws ≡ []
drop-length [] = refl
drop-length (w ∷ ws) = drop-length ws

-- Buffers that hold the last `r` of the lines, and the buffer behind them.
print_lines-drop :
    (r q : ℕ) (ws : List Bytes) (rest : Bytes) (lines : Lines) (d i : ℕ)
    → d + r ≡ length ws
    → ((t : ℕ) → t < r → lines ((i + t) % 10) ≡ nth ws (d + t))
    → lines ((i + r) % 10) ≡ rest
    → print_lines (r + suc q) lines i
      ≡ text_of (drop d ws) ++ (rest ++ print_lines q lines (i + r + 1))
unfolding print_lines text_of
print_lines-drop zero q ws rest lines d i e slots last =
    let first : lines (i % 10) ≡ rest = ap (λ j. lines (j % 10)) (omega arith) ∙ last in
    let nothing : drop d ws ≡ [] = ap (λ k. drop k ws) (omega arith) ∙ drop-length ws in
    let one : 0 + suc q ≡ suc q = omega arith in
    let behind : i + 0 + 1 ≡ i + 1 = omega arith in
    rw (one, nothing, behind) (rw (first, print_lines, text_of) refl)
print_lines-drop (suc r) q ws rest lines d i e slots last =
    let first : lines (i % 10) ≡ nth ws d =
      ap (λ j. lines (j % 10)) (omega arith) ∙ slots 0 (omega arith) ∙ ap (nth ws) (omega arith) in
    let later =
      print_lines-drop r q ws rest lines (suc d) (i + 1) (omega arith)
        (λ t h.
          ap (λ j. lines (j % 10)) (omega arith)
          ∙ slots (suc t) (omega arith)
          ∙ ap (nth ws) (omega arith))
        (ap (λ j. lines (j % 10)) (omega arith) ∙ last) in
    let one : suc r + suc q ≡ suc (r + suc q) = omega arith in
    let behind : i + suc r + 1 ≡ i + 1 + r + 1 = omega arith in
    rw (one, behind, text_of-drop ws d (omega arith))
      (rw (first, later)
        (sym (
          append_assoc (nth ws d) (text_of (drop (suc d) ws))
            (rest ++ print_lines q lines (i + 1 + r + 1)))))

print_lines_congr :
    (q : ℕ) (lines lines' : Lines) (i : ℕ)
    → ((t : ℕ) → t < q → lines ((i + t) % 10) ≡ lines' ((i + t) % 10))
    → print_lines q lines i ≡ print_lines q lines' i
unfolding print_lines
print_lines_congr zero lines lines' i h = refl
print_lines_congr (suc q) lines lines' i h =
    let first : lines (i % 10) ≡ lines' (i % 10) =
      ap (λ j. lines (j % 10)) (omega arith)
      ∙ h 0 (omega arith)
      ∙ ap (λ j. lines' (j % 10)) (omega arith) in
    let later = print_lines_congr q lines lines' (i + 1) (λ t k.
      ap (λ j. lines (j % 10)) (omega arith)
      ∙ h (suc t) (omega arith)
      ∙ ap (λ j. lines' (j % 10)) (omega arith)) in
    rw (first, later) refl

tail1-print_lines :
    (garbage : Lines) (s : Bytes) (r : Reading) (lines : Lines)
    → read_all s (between garbage 0 [] 0) ≡ some r
    → terminate r.lines r.index r.text ≡ some lines
    → tail1 garbage s ≡ some (print_lines 10 lines (if ltb r.line 10 then 0 else r.index + 1))
unfolding tail1
tail1-print_lines garbage s r lines e f = rw (e, tail1) (rw f refl)

terminate_lem :
    (lines : Lines) (index : ℕ) (text : Bytes)
    → length text < 4096
    → All (λ c. c ≢ 0) text
    → terminate lines index text ≡ some (put lines index text)
unfolding terminate
terminate_lem lines index text h z = rw (c_text_all text z, terminate) (ground arith)

-- The buffers when the file is read.
module _ (garbage : Lines) (ws : List Bytes) (rest : Bytes) where
  filled : Lines
  filled = put (fill ws garbage 0) (length ws % 10) rest

  start : ℕ
  start = if ltb (length ws) 10 then 0 else length ws % 10 + 1

  tail1-filled :
      All IsLine ws
      → All (λ c. c ≢ newline) rest
      → All (λ c. c ≢ 0) rest
      → length rest < 4096
      → length ws < 2 ^ 31
      → tail1 garbage (text_of ws ++ rest) ≡ some (print_lines 10 filled start)
  unfolding filled start
  tail1-filled h k z l few =
      let n = length ws in
      let r : Reading = between (fill ws garbage 0) (n % 10) rest n in
      let read : read_all (text_of ws ++ rest) (between garbage 0 [] 0) ≡ some r =
        read_all-fill ws rest garbage 0 0 h k l (omega arith)
        ∙ ap (λ m. some (between (fill ws garbage 0) (m % 10) rest (0 + n))) (omega arith)
        ∙ ap (λ m. some (between (fill ws garbage 0) (n % 10) rest m)) (omega arith) in
      tail1-print_lines garbage (text_of ws ++ rest) r _ read
        (terminate_lem (fill ws garbage 0) (n % 10) rest l z)

  print-many :
      10 ≤ length ws
      → print_lines 10 filled (length ws % 10 + 1) ≡ text_of (drop (length ws - 9) ws) ++ rest
  unfolding filled print_lines
  print-many h =
      print_lines-drop 9 0 ws rest filled (length ws - 9) (length ws % 10 + 1) (omega arith)
        (λ t k.
          put-ne (fill ws garbage 0) (length ws % 10) _ rest (λ e. omega arith)
          ∙ ap (fill ws garbage 0) (omega arith)
          ∙ fill-nth ws garbage 0 (length ws - 9 + t) (omega arith) (omega arith))
        (put-eq (fill ws garbage 0) (length ws % 10) _ rest (omega arith))
      ∙ ap (λ u. text_of (drop (length ws - 9) ws) ++ u) (append-nil rest)

  print-few :
      length ws < 10
      → print_lines 10 filled 0
        ≡ text_of ws ++ (rest ++ print_lines (9 - length ws) garbage (length ws + 1))
  unfolding filled
  print-few h =
      let n = length ws in
      let rounds : n + suc (9 - n) ≡ 10 = omega arith in
      let written =
        print_lines-drop n (9 - n) ws rest filled 0 0 (omega arith)
          (λ t k.
            put-ne (fill ws garbage 0) (n % 10) _ rest (λ e. omega arith)
            ∙ fill-nth ws garbage 0 t k (omega arith)
            ∙ ap (nth ws) (omega arith))
          (put-eq (fill ws garbage 0) (n % 10) _ rest (omega arith)) in
      let stale = print_lines_congr (9 - n) filled garbage (0 + n + 1) (λ t k.
        put-ne (fill ws garbage 0) (n % 10) _ rest (λ e. omega arith)
        ∙ ap (fill ws garbage 0) (omega arith)
        ∙ fill-old ws garbage 0 (n + 1 + t) (omega arith) (omega arith)
        ∙ ap garbage (omega arith)) in
      ap (λ m. print_lines m filled 0) (sym rounds)
      ∙ written
      ∙ rw stale (ap (λ m. text_of ws ++ (rest ++ print_lines (9 - n) garbage m)) (omega arith))

-- For a file without zero bytes, of fewer than 2^31 lines of at most 4094 bytes and a last part of at most 4095
-- bytes without a newline, no write is outside of a buffer and no int overflows. With ten lines or more tail1 prints the last nine of them and the last
-- part. With fewer it prints the whole file, and then what the untouched buffers happen to hold.
pub tail1_lem :
    (garbage : Lines) (ws : List Bytes) (rest : Bytes)
    → All IsLine ws
    → All (λ c. c ≢ newline) rest
    → All (λ c. c ≢ 0) rest
    → length rest < 4096
    → length ws < 2 ^ 31
    → ((10 ≤ length ws)
        × (tail1 garbage (text_of ws ++ rest) ≡ some (text_of (drop (length ws - 9) ws) ++ rest)))
      ⊎ ((length ws < 10)
          × (tail1 garbage (text_of ws ++ rest)
              ≡ some (text_of ws ++ (rest ++ print_lines (9 - length ws) garbage (length ws + 1)))))
unfolding start
tail1_lem garbage ws rest h k z l int =
    let read = tail1-filled garbage ws rest h k z l int in
    elim (dec_lt (length ws) 10) [
      | yes few ↦ inr (few, read ∙ ap some (ground (arith, print-few garbage ws rest few)))
      | no many ↦
          inl
            (omega arith, read ∙ ap some (ground (arith, print-many garbage ws rest (omega arith))))
    ]
