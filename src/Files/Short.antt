-- ===== src/Files/Short.antt =====
-- Where all paths stay below half of the buffer, dir_walk keeps it.
use mathlib.Core.Path.{subst}
use mathlib.Core.List.{append_assoc, append-nil}
use c_study.Base.{
  ℕ, ◌+◌, ◌/◌, ◌≤◌, ◌<◌, ◌≡◌, refl, sym, ap, ◌∙◌, ◌⊎◌, inl, inr, [], ◌∷◌, ◌++◌, true, false, Option,
  some, length, length-append, leb, if◌then◌else◌, ◌>>=◌, Bool-cases, arith,
}
use c_study.Files.Walk.{
  PathName, Mode, directory, Node, missing, file, dir, Entries, end, entry, file_callback, none_yet,
  Walked, is_dot, dir_walk, walk_entries, count_file_types,
}
use c_study.Files.Buffer.{
  Buffer, Realloc, Left, continue_in, visit_in, entry_in, grow_in, walk_in, entries_in, printed,
  initial_size, count_from, count_main,
}
use c_study.Files.Holding.{
  holding, load-holding, store-holding, close_path-holding, grow-short, store-slash, store-name,
}

-- The path of every directory, whose length is that of the root's path at first, has at most half of the
-- buffer, and no name has more than NAME_MAX bytes.
unfoldable mutual
  unfolding is_dot

  pub IsShort : ℕ → ℕ → Node → Type 0
  IsShort buf_len n missing = Unit
  IsShort buf_len n (file k) = Unit
  IsShort buf_len n (dir opened es) = (n ≤ buf_len / 2) × AllShort buf_len (n + 1) es

  pub AllShort : ℕ → ℕ → Entries → Type 0
  AllShort buf_len n end = Unit
  AllShort buf_len n (entry name node es) =
      (length name ≤ 255)
      × ((is_dot name ≡ true) ⊎ IsShort buf_len (n + length name) node)
      × AllShort buf_len n es

not_dot :
    (name : PathName) (node : Node) (P : Type 0)
    → is_dot name ≡ false
    → (is_dot name ≡ true) ⊎ P
    → P
not_dot name node P d (inl t) = cc
not_dot name node P d (inr p) = p

module _ {A : Type 0} (fn : PathName → Mode → A → A) where
  -- What dir_walk leaves in the buffer begins with its path.
  dir_walk-path :
      (path : PathName) (node : Node) (arg : A)
      → (tail : PathName) × ((dir_walk fn path node arg).path ≡ path ++ tail)
  unfolding dir_walk
  dir_walk-path path missing arg = ([], sym (append-nil path))
  dir_walk-path path (file k) arg = ([], sym (append-nil path))
  dir_walk-path path (dir true es) arg = ([], sym (append-nil path))
  dir_walk-path path (dir false es) arg = (b'/' ∷ [], refl)

module _ {A : Type 0} (realloc : Realloc) (fn : PathName → Mode → A → A) (path buf_len : ℕ)
    (large : 514 ≤ buf_len) where
  -- What dir_walk leaves of this buffer.
  abbrev left : Walked A → Left A
  left w = record { failed = w.failed; buffer = holding path buf_len w.path; arg = w.arg }

  -- What the rest of a loop leaves, whatever stands behind the slash.
  abbrev Goes : PathName → (Buffer → A → Option (Left A)) → (A → Walked A) → Type 0
  Goes text more walked =
      (tail : PathName) (arg : A)
      → more (holding path buf_len (text ++ b'/' ∷ tail)) arg
        ≡ some (record {
          failed = (walked arg).failed;
          buffer = holding path buf_len text;
          arg = (walked arg).arg;
        })

  continue_in-short :
      (text tail : PathName) (more : Buffer → A → Option (Left A)) (walked : A → Walked A)
      (w : Walked A)
      → length text < buf_len
      → Goes text more walked
      → w.path ≡ text ++ b'/' ∷ tail
      → continue_in path (length text + 1) more (left w)
        ≡ some (record {
          failed = (if w.failed then w else walked w.arg).failed;
          buffer = holding path buf_len text;
          arg = (if w.failed then w else walked w.arg).arg;
        })
  unfolding continue_in
  continue_in-short text tail more walked w l go e = elim (Bool-cases w.failed) [
    | inl f ↦ rw f (
        rw e (
          close_path-holding realloc fn path buf_len large text (b'/' ∷ tail) true w.failed w.arg
            l))
    | inr f ↦ rw f (rw e (go tail w.arg))
  ]

  visit_in-short :
      (text tail name : PathName) (walk more : Buffer → A → Option (Left A)) (walked : A → Walked A)
      (w : Walked A) (arg : A)
      → length text ≤ buf_len / 2
      → length name ≤ 255
      → walk (holding path buf_len ((text ++ b'/' ∷ []) ++ name)) arg ≡ some (left w)
      → (rest : PathName) × (w.path ≡ ((text ++ b'/' ∷ []) ++ name) ++ rest)
      → Goes text more walked
      → visit_in path
          (length text + 1)
          name
          walk
          more
          (holding path buf_len (text ++ b'/' ∷ tail))
          arg
        ≡ some (record {
          failed = (if w.failed then w else walked w.arg).failed;
          buffer = holding path buf_len text;
          arg = (if w.failed then w else walked w.arg).arg;
        })
  unfolding visit_in
  visit_in-short text tail name walk more walked w arg l n inner (rest, p) go =
      let q : w.path ≡ text ++ b'/' ∷ (name ++ rest) =
        p
        ∙ append_assoc (text ++ b'/' ∷ []) name rest
        ∙ append_assoc text (b'/' ∷ []) (name ++ rest) in
      rw
        (
          store-name realloc fn path buf_len large text tail name (omega (arith, l, n, large)),
          visit_in,
        )
        (rw (inner, ◌>>=◌)
          (continue_in-short text (name ++ rest) more walked w (omega (arith, l, large)) go q))

  mutual
    unfolding walk_in dir_walk IsShort

    walk_in-dir_walk :
        (text : PathName) (node : Node) (arg : A)
        → IsShort buf_len (length text) node
        → walk_in realloc fn path buf_len node (holding path buf_len text) arg
          ≡ some (left (dir_walk fn text node arg))
    walk_in-dir_walk text missing arg h = rw (load-holding path buf_len text) refl
    walk_in-dir_walk text (file k) arg h = rw (load-holding path buf_len text) refl
    walk_in-dir_walk text (dir false es) arg h =
        rw (load-holding path buf_len text, ◌>>=◌)
          (rw (grow-short realloc fn path buf_len large text h.0, grow_in)
            (rw (store-slash realloc fn path buf_len large text (omega (arith, h.0))) refl))
    walk_in-dir_walk text (dir true es) arg h =
        rw (load-holding path buf_len text, ◌>>=◌)
          (rw (grow-short realloc fn path buf_len large text h.0, grow_in)
            (rw (store-slash realloc fn path buf_len large text (omega (arith, h.0)), ◌>>=◌)
              (entries_in-walk_entries text es h.0 h.1 [] (fn text directory arg))))

    entries_in-walk_entries :
        (text : PathName) (es : Entries)
        → length text ≤ buf_len / 2
        → AllShort buf_len (length text + 1) es
        → Goes text
            (entries_in realloc fn path buf_len (length text + 1) es)
            (walk_entries fn (text ++ b'/' ∷ []) es)
    entries_in-walk_entries text end l h tail arg =
        close_path-holding realloc fn path buf_len large text (b'/' ∷ tail) false false arg
          (omega arith)
    entries_in-walk_entries text (entry name node es) l h tail arg =
        let more = entries_in-walk_entries text es l h.2 in
        elim (Bool-cases (is_dot name)) [
          | inl d ↦ rw (d, entries_in, entry_in, walk_entries) (more tail arg)
          | inr d ↦
              let base = text ++ b'/' ∷ [] in
              let long : length (base ++ name) ≡ length text + 1 + length name =
                length-append base name
                ∙ ap (λ n. n + length name) (length-append text (b'/' ∷ [])) in
              let short : IsShort buf_len (length (base ++ name)) node =
                subst (λ n. IsShort buf_len n node) (sym long) (not_dot name node _ d h.1) in
              rw (d, entries_in, entry_in, walk_entries)
                (visit_in-short text tail name (walk_in realloc fn path buf_len node)
                  (entries_in realloc fn path buf_len (length text + 1) es)
                  (walk_entries fn base es) (dir_walk fn (base ++ name) node arg) arg l h.0
                  (walk_in-dir_walk (base ++ name) node arg short)
                  (dir_walk-path fn (base ++ name) node arg) more)
        ]

-- Where the argument fits into the first buffer, no name has more than 255 bytes and the path of no directory
-- has more than half of the first buffer, the program makes no bad use of its buffer, whatever fails in the
-- tree: it prints the statistic that the walk over the tree gives, and the path that the walk leaves.
pub count_main-count_file_types :
    (realloc : Realloc) (file_path : ℕ) (arg : PathName) (node : Node)
    → length arg < initial_size
    → IsShort initial_size (length arg) node
    → count_main realloc (some file_path) arg node
      ≡ some (printed (count_file_types arg node).path (count_file_types arg node).arg)
unfolding count_main count_from count_file_types
count_main-count_file_types realloc file_path arg node l h =
    let fits : leb initial_size (length arg) ≡ false = ground arith in
    let stored = store-holding file_path initial_size [] [] arg (omega (arith, l)) in
    let walked =
      walk_in-dir_walk realloc file_callback file_path initial_size (omega arith) arg node none_yet
        h in
    let w = dir_walk file_callback arg node none_yet in
    rw fits (
      rw (stored, ◌>>=◌)
        (rw (walked, ◌>>=◌) (rw (load-holding file_path initial_size w.path, ◌>>=◌) refl)))
