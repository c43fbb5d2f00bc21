-- ===== src/Filters/Ring.antt =====
-- section07/tail1.c: what the ring of buffers holds when the file is read.
use mathlib.Core.List.{append_assoc, append-nil}
use c_study.Base.{
  ℕ, zero, suc, ◌+◌, ◌%◌, ◌^◌, ◌≤◌, ◌<◌, ◌≡◌, refl, ◌∙◌, sym, ap, ◌≢◌, List, [], ◌∷◌, ◌++◌, some,
  arith, length, length-append, All, All-append, ◌>>=◌,
}
use c_study.Filters.Input.{Bytes, newline}
use c_study.Filters.Tail.{Lines, put, c_text, Reading, terminate, put_byte, read_all}

-- A line without its newline, which a buffer has room for.
pub record IsLine (w : Bytes) : Type 0 where
  pub plain : All (λ c. c ≢ newline) w
  pub whole : All (λ c. c ≢ 0) w
  pub short : length w + 1 < 4096

-- The lines, each with its newline.
unfoldable pub text_of : List Bytes → Bytes
text_of [] = []
text_of (w ∷ ws) = (w ++ newline ∷ []) ++ text_of ws

put_byte-plain :
    (r : Reading) (c : ℕ)
    → c ≢ newline
    → length r.text < 4096
    → put_byte r c ≡ some (record r { text = r.text ++ c ∷ [] })
unfolding put_byte
put_byte-plain r c h k = ground arith

pub c_text_all : (s : Bytes) → All (λ c. c ≢ 0) s → c_text s ≡ s
unfolding c_text
c_text_all [] h = refl
c_text_all (zero ∷ s) h = absurd (h.0 refl)
c_text_all (suc c ∷ s) h = ap (◌∷◌ (suc c)) (c_text_all s h.1)

put_byte-newline :
    (r : Reading)
    → length r.text + 1 < 4096
    → r.line + 1 < 2 ^ 31
    → All (λ c. c ≢ 0) r.text
    → put_byte r newline
      ≡ some (record {
        lines = put r.lines r.index (r.text ++ newline ∷ []);
        index = (r.index + 1) % 10;
        text = [];
        line = r.line + 1;
      })
unfolding put_byte terminate
put_byte-newline r h k z =
    let whole : c_text (r.text ++ newline ∷ []) ≡ r.text ++ newline ∷ [] =
      c_text_all (r.text ++ newline ∷ []) (All-append (λ c. c ≢ 0) (λ e. omega arith) r.text z) in
    ground (arith, length-append r.text (newline ∷ []))

-- Bytes that are no newline go to the text.
read_all-plain :
    (w : Bytes) (s : Bytes) (r : Reading)
    → All (λ c. c ≢ newline) w
    → length r.text + length w < 4097
    → read_all (w ++ s) r ≡ read_all s (record r { text = r.text ++ w })
unfolding read_all
read_all-plain [] s r h k = ap (λ t. read_all s (record r { text = t })) (sym (append-nil r.text))
read_all-plain (c ∷ w) s r h k =
    ap (λ o. o >>= read_all (w ++ s)) (put_byte-plain r c h.0 (omega arith))
    ∙ read_all-plain w s (record r { text = r.text ++ c ∷ [] }) h.1
        (omega (arith, length-append r.text (c ∷ [])))
    ∙ ap (λ t. read_all s (record r { text = t })) (append_assoc r.text (c ∷ []) w)

abbrev pub between : Lines → ℕ → Bytes → ℕ → Reading
between lines index text line = record { lines = lines; index = index; text = text; line = line }

-- A whole line fills the next buffer.
read_all-line :
    (w s : Bytes) (lines : Lines) (index line : ℕ)
    → IsLine w
    → line + 1 < 2 ^ 31
    → read_all ((w ++ newline ∷ []) ++ s) (between lines index [] line)
      ≡ read_all s (between (put lines index (w ++ newline ∷ [])) ((index + 1) % 10) [] (line + 1))
unfolding read_all
read_all-line w s lines index line h k =
    ap (λ t. read_all t (between lines index [] line)) (append_assoc w (newline ∷ []) s)
    ∙ read_all-plain w (newline ∷ s) (between lines index [] line) h.plain (omega (arith, h.short))
    ∙ ap (λ o. o >>= read_all s) (put_byte-newline (between lines index w line) h.short k h.whole)

-- The buffers after these lines, from a buffer on.
pub fill : List Bytes → Lines → ℕ → Lines
fill [] lines index = lines
fill (w ∷ ws) lines index = fill ws (put lines index (w ++ newline ∷ [])) ((index + 1) % 10)

next_slot : (m : ℕ) → (m % 10 + 1) % 10 ≡ (m + 1) % 10
next_slot m = omega arith

later_slot : (m d : ℕ) → (m + suc d) % 10 ≡ (m + 1 + d) % 10
later_slot m d = omega arith

pub put-ne : (lines : Lines) (i j : ℕ) (text : Bytes) → i ≢ j → put lines i text j ≡ lines j
put-ne lines i j text h = ground arith

pub put-eq : (lines : Lines) (i j : ℕ) (text : Bytes) → i ≡ j → put lines i text j ≡ text
put-eq lines i j text h = ground arith

pub read_all-fill :
    (ws : List Bytes) (rest : Bytes) (lines : Lines) (m line : ℕ)
    → All IsLine ws
    → All (λ c. c ≢ newline) rest
    → length rest < 4096
    → line + length ws < 2 ^ 31
    → read_all (text_of ws ++ rest) (between lines (m % 10) [] line)
      ≡ some (between (fill ws lines (m % 10)) ((m + length ws) % 10) rest (line + length ws))
unfolding fill text_of read_all
read_all-fill [] rest lines m line h k l n =
    ap (λ t. read_all t (between lines (m % 10) [] line)) (sym (append-nil rest))
    ∙ read_all-plain rest [] (between lines (m % 10) [] line) k (omega arith)
    ∙ ap (λ i. some (between lines (i % 10) rest line)) (omega arith)
    ∙ ap (λ n. some (between lines ((m + 0) % 10) rest n)) (omega arith)
read_all-fill (w ∷ ws) rest lines m line h k l n =
    ap (λ t. read_all t (between lines (m % 10) [] line))
      (append_assoc (w ++ newline ∷ []) (text_of ws) rest)
    ∙ read_all-line w (text_of ws ++ rest) lines (m % 10) line h.0 (omega (arith, n))
    ∙ rw (next_slot m) (
        read_all-fill ws rest (put lines (m % 10) (w ++ newline ∷ [])) (m + 1) (line + 1) h.1 k l
          (omega (arith, n))
        ∙ ap
            (λ i. some (
              between (fill ws (put lines (m % 10) (w ++ newline ∷ [])) ((m + 1) % 10)) (i % 10)
                rest (line + 1 + length ws)))
            (omega arith)
        ∙ ap
            (λ n. some (
              between (fill ws (put lines (m % 10) (w ++ newline ∷ [])) ((m + 1) % 10))
                ((m + suc (length ws)) % 10) rest n))
            (omega arith))

-- A buffer that the lines do not reach.
pub fill-old :
    (ws : List Bytes) (lines : Lines) (m d : ℕ)
    → length ws ≤ d
    → d < 10
    → fill ws lines (m % 10) ((m + d) % 10) ≡ lines ((m + d) % 10)
unfolding fill
fill-old [] lines m d h k = refl
fill-old (w ∷ ws) lines m zero h k = absurd (omega arith)
fill-old (w ∷ ws) lines m (suc d) h k =
    rw (next_slot m, later_slot m d)
      (fill-old ws (put lines (m % 10) (w ++ newline ∷ [])) (m + 1) d (omega arith) (omega arith)
        ∙ put-ne lines (m % 10) ((m + 1 + d) % 10) (w ++ newline ∷ []) (λ e. omega arith))

abbrev pub nth : List Bytes → ℕ → Bytes
nth [] i = []
nth (w ∷ ws) zero = w ++ newline ∷ []
nth (w ∷ ws) (suc i) = nth ws i

-- The buffer of one of the last ten lines.
pub fill-nth :
    (ws : List Bytes) (lines : Lines) (m d : ℕ)
    → d < length ws
    → length ws ≤ d + 10
    → fill ws lines (m % 10) ((m + d) % 10) ≡ nth ws d
unfolding fill
fill-nth [] lines m d h k = absurd (omega arith)
fill-nth (w ∷ ws) lines m zero h k =
    let same : (m + 0) % 10 ≡ (m + 1 + 9) % 10 = omega arith in
    rw (next_slot m, same)
      (fill-old ws (put lines (m % 10) (w ++ newline ∷ [])) (m + 1) 9 (omega arith) (omega arith)
        ∙ put-eq lines (m % 10) ((m + 1 + 9) % 10) (w ++ newline ∷ []) (omega arith))
fill-nth (w ∷ ws) lines m (suc d) h k =
    rw (next_slot m, later_slot m d)
      (fill-nth ws (put lines (m % 10) (w ++ newline ∷ [])) (m + 1) d (omega arith) (omega arith))
