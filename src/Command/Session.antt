-- ===== src/Command/Session.antt =====
-- What a session of run_command starts.
use mathlib.Core.List.{append_assoc, append-nil}
use c_study.Base.{
  ℕ, zero, suc, ◌+◌, ◌-◌, ◌≤◌, ◌<◌, ◌≡◌, refl, ◌≢◌, ◌∙◌, ap, List, [], ◌∷◌, ◌++◌, some, map, length,
  length-append, All, All-append, sym, arith,
}
use c_study.Command.Loop.{
  Text, newline, read_line, fgets, text_of, cut_last, Child, exits, Session, stopped, launch, main,
}

-- A byte that is neither a newline nor zero.
abbrev pub IsPlain : ℕ → Type 0
IsPlain c = (c ≢ newline) × (c ≢ 0)

-- A command that fits into the buffer with its newline.
pub record IsCommand (w : Text) : Type 0 where
  pub plain : All IsPlain w
  pub short : length w < 255

-- The commands, each with a newline.
unfoldable pub script : List Text → Text
script [] = []
script (w ∷ ws) = w ++ newline ∷ script ws

read_line-newline :
    (w s : Text) (room : ℕ)
    → All IsPlain w
    → length w < room
    → read_line room (w ++ newline ∷ s) ≡ record { buffer = w ++ newline ∷ []; rest = s }
unfolding read_line
read_line-newline w s zero p h = absurd (omega arith)
read_line-newline [] s (suc room) p h = refl
read_line-newline (c ∷ w) s (suc room) p h =
    let plain = p.0.0 in ground (arith, read_line-newline w s room p.1 (omega arith))

read_line-rest :
    (w : Text) (room : ℕ)
    → All IsPlain w
    → length w ≤ room
    → read_line room w ≡ record { buffer = w; rest = [] }
unfolding read_line
read_line-rest [] zero p h = refl
read_line-rest (c ∷ w) zero p h = absurd (omega arith)
read_line-rest [] (suc room) p h = refl
read_line-rest (c ∷ w) (suc room) p h =
    let plain = p.0.0 in ground (arith, read_line-rest w room p.1 (omega arith))

text_of-append : (w s : Text) → All IsPlain w → text_of (w ++ s) ≡ w ++ text_of s
unfolding text_of
text_of-append [] s p = refl
text_of-append (zero ∷ w) s p = absurd (p.0.1 refl)
text_of-append (suc c ∷ w) s p = ap (◌∷◌ (suc c)) (text_of-append w s p.1)

cut_last-append : (w : Text) (c : ℕ) → cut_last (w ++ c ∷ []) ≡ some w
unfolding cut_last
cut_last-append [] c = refl
cut_last-append (d ∷ []) c = refl
cut_last-append (d ∷ e ∷ w) c = rw (cut_last-append (e ∷ w) c) refl

fgets-newline :
    (w s : Text)
    → IsCommand w
    → fgets (w ++ newline ∷ s) ≡ some (record { buffer = w ++ newline ∷ []; rest = s })
unfolding fgets
fgets-newline [] s p = ap some (read_line-newline [] s 255 p.plain p.short)
fgets-newline (c ∷ w) s p = ap some (read_line-newline (c ∷ w) s 255 p.plain p.short)

fgets-rest :
    (c : ℕ) (w : Text)
    → All IsPlain (c ∷ w)
    → length w < 255
    → fgets (c ∷ w) ≡ some (record { buffer = c ∷ w; rest = [] })
unfolding fgets
fgets-rest c w p h = ap some (read_line-rest (c ∷ w) 255 p (omega arith))

fgets-last :
    (w : Text) (c : ℕ)
    → IsCommand w
    → IsPlain c
    → fgets (w ++ c ∷ []) ≡ some (record { buffer = w ++ c ∷ []; rest = [] })
fgets-last [] c p d = fgets-rest c [] (d, tt) (omega arith)
fgets-last (a ∷ w) c p d =
    let short = p.short in
    fgets-rest a (w ++ c ∷ []) (p.plain.0, All-append IsPlain d w p.plain.1)
      (omega (arith, length-append w (c ∷ [])))

abbrev ended_with : List Text → List ℕ → Session
ended_with us ms = record { started = us; statuses = ms; ended = some 1 }

session :
    {us vs : List Text} {ms ns : List ℕ} → us ≡ vs → ms ≡ ns → ended_with us ms ≡ ended_with vs ns
session e f = cc

-- These commands come first, and end with these statuses.
abbrev before : (Text → ℕ) → List Text → Session → Session
before status ws s = record s { started = ws ++ s.started; statuses = map status ws ++ s.statuses }

module _ (child : Text → Child) (status : Text → ℕ) where
  main-nil : (fuel : ℕ) → main (suc fuel) child [] ≡ stopped 1
  unfolding main fgets
  main-nil fuel = refl

  -- One round whose `fgets` stores `w` and one byte more.
  main-round :
      (fuel : ℕ) (w : Text) (c : ℕ) (input rest : Text)
      → fgets input ≡ some (record { buffer = w ++ suc c ∷ []; rest = rest })
      → All IsPlain w
      → child w ≡ exits (status w)
      → main (suc fuel) child input ≡ before status (w ∷ []) (main fuel child rest)
  unfolding main launch
  main-round fuel w c input rest e p x =
      let text : text_of (w ++ suc c ∷ []) ≡ w ++ suc c ∷ [] = text_of-append w (suc c ∷ []) p in
      rw (e, main) (rw (text, main) (rw (cut_last-append w (suc c), main) (rw (x, launch) refl)))

  main-script :
      (ws : List Text) (fuel : ℕ) (input : Text)
      → All IsCommand ws
      → All (λ w. child w ≡ exits (status w)) ws
      → main (length ws + fuel) child (script ws ++ input)
        ≡ before status ws (main fuel child input)
  unfolding script
  main-script [] fuel input p x = ap (λ f. main f child input) (omega arith)
  main-script (w ∷ ws) fuel input p x =
      let line = fgets-newline w (script ws ++ input) p.0 in
      let first =
        main-round (length ws + fuel) w 9 (w ++ newline ∷ (script ws ++ input)) (script ws ++ input)
          line p.0.plain x.0 in
      ap (λ f. main f child ((w ++ newline ∷ script ws) ++ input)) (omega arith)
      ∙ ap (main (suc (length ws + fuel)) child) (append_assoc w (newline ∷ script ws) input)
      ∙ first
      ∙ ap (before status (w ∷ [])) (main-script ws fuel input p.1 x.1)

  main-end :
      (ws : List Text) (k : ℕ)
      → All IsCommand ws
      → All (λ u. child u ≡ exits (status u)) ws
      → main (length ws + suc k) child (script ws)
        ≡ record { started = ws; statuses = map status ws; ended = some 1 }
  main-end ws k p x =
      ap (main (length ws + suc k) child) (sym (append-nil (script ws)))
      ∙ main-script ws (suc k) [] p x
      ∙ ap (before status ws) (main-nil k)
      ∙ session (append-nil ws) (append-nil (map status ws))

  main-last :
      (ws : List Text) (w : Text) (c k : ℕ)
      → All IsCommand ws
      → IsCommand w
      → IsPlain c
      → All (λ u. child u ≡ exits (status u)) ws
      → child w ≡ exits (status w)
      → main (length ws + suc (suc k)) child (script ws ++ (w ++ c ∷ [])) ≡ record {
        started = ws ++ w ∷ [];
        statuses = map status ws ++ status w ∷ [];
        ended = some 1;
      }
  main-last ws w zero k p q d x y = absurd (d.1 refl)
  main-last ws w (suc c) k p q d x y =
      main-script ws (suc (suc k)) (w ++ suc c ∷ []) p x
      ∙ ap (before status ws) (
          main-round (suc k) w c (w ++ suc c ∷ []) [] (fgets-last w (suc c) q d) q.plain y
          ∙ ap (before status (w ∷ [])) (main-nil k))

  -- A script of commands, each on a line of its own and exiting: with fuel for two rounds more than there are
  -- commands, `main` starts each of them in their order, reports their statuses, and returns 1 at the end of
  -- the input. If a last command has no newline, `main` starts it without its last byte.
  pub main_lem :
      (ws : List Text) (w : Text) (c fuel : ℕ)
      → All IsCommand ws
      → IsCommand w
      → IsPlain c
      → All (λ u. child u ≡ exits (status u)) ws
      → child w ≡ exits (status w)
      → length ws + 2 ≤ fuel
      → (main fuel child (script ws)
          ≡ record { started = ws; statuses = map status ws; ended = some 1 })
        × (main fuel child (script ws ++ (w ++ c ∷ [])) ≡ record {
          started = ws ++ w ∷ [];
          statuses = map status ws ++ status w ∷ [];
          ended = some 1;
        })
  main_lem ws w c fuel p q d x y f =
      let k = fuel - (length ws + 2) in
      let enough : fuel ≡ length ws + suc (suc k) = omega arith in
      (
        ap (λ n. main n child (script ws)) enough ∙ main-end ws (suc k) p x,
        ap (λ n. main n child (script ws ++ (w ++ c ∷ []))) enough ∙ main-last ws w c k p q d x y,
      )
