-- ===== src/Files/Moved.antt =====
-- What dir_walk does when a longer path makes it reallocate the buffer under its caller.
use c_study.Base.{
  ℕ, ◌+◌, ◌-◌, ◌*◌, ◌/◌, ◌≤◌, ◌<◌, ◌≡◌, refl, sym, ap, ◌∙◌, ◌≢◌, inl, inr, [], ◌∷◌, ◌++◌, true,
  false, none, some, length, length-append, ltb, leb, ◌>>=◌, Bool-cases, arith,
}
use c_study.Files.Walk.{
  PathName, Mode, directory, dir, Entries, end, entry, file_callback, none_yet, is_dot,
}
use c_study.Files.Buffer.{
  Buffer, store, Realloc, resize, grow, close_path, visit_in, entry_in, open_in, grow_in, walk_in,
  entries_in, initial_size, count_from, count_main,
}
use c_study.Files.Holding.{
  holding, load-holding, store-holding, store-slash, store-name, close_path-holding, grow-short,
}

store-moved : (path at : ℕ) (s : PathName) (b : Buffer) → path ≢ b.addr → store path at s b ≡ none
unfolding store
store-moved path at s b h = ground arith

module _ {A : Type 0} (realloc : Realloc) (fn : PathName → Mode → A → A) where
  -- A loop whose buffer has moved ends with a fault.
  entries_in-moved :
      (path buf_len path_end : ℕ) (es : Entries) (b : Buffer) (arg : A)
      → path ≢ b.addr
      → entries_in realloc fn path buf_len path_end es b arg ≡ none
  unfolding entries_in
  entries_in-moved path buf_len path_end end b arg h =
      rw (store-moved path (path_end - 1) [] b h, close_path) refl
  entries_in-moved path buf_len path_end (entry name node es) b arg h =
      elim (Bool-cases (is_dot name)) [
        | inl d ↦ rw (d, entry_in) (entries_in-moved path buf_len path_end es b arg h)
        | inr d ↦ rw (d, entry_in) (rw (store-moved path path_end name b h, visit_in) refl)
      ]

  -- An empty directory whose path is longer than half of the buffer leaves the buffer at its new place.
  walk_in-moves :
      (path q buf_len : ℕ) (text : PathName) (arg : A)
      → 514 ≤ buf_len
      → buf_len / 2 < length text
      → length text < buf_len
      → realloc path (buf_len * 2) ≡ some q
      → walk_in realloc fn path buf_len (dir true end) (holding path buf_len text) arg
        ≡ some (record {
          failed = false;
          buffer = holding q (buf_len * 2) text;
          arg = fn text directory arg;
        })
  unfolding walk_in
  walk_in-moves path q buf_len text arg b h l e =
      let more : ltb (buf_len / 2) (length text) ≡ true = ground arith in
      rw (load-holding path buf_len text, ◌>>=◌)
        (rw (more, grow)
          (rw (e, resize)
            (rw
              (
                store-slash realloc fn q (buf_len * 2) (omega (arith, b)) text
                    (omega (arith, l, b)),
                open_in,
              )
              (close_path-holding realloc fn q (buf_len * 2) (omega (arith, b)) text (b'/' ∷ [])
                false false (fn text directory arg) (omega (arith, l))))))

  walk_in-moved :
      (path q buf_len : ℕ) (text name : PathName) (es : Entries) (arg : A)
      → 514 ≤ buf_len
      → length text ≤ buf_len / 2
      → length name ≤ 255
      → is_dot name ≡ false
      → buf_len / 2 < length text + 1 + length name
      → realloc path (buf_len * 2) ≡ some q
      → q ≢ path
      → walk_in realloc fn path buf_len
          (dir true (entry name (dir true end) es))
          (holding path buf_len text)
          arg
        ≡ none
  unfolding walk_in
  walk_in-moved path q buf_len text name es arg b h n d g e m =
      let large = b in
      let base = text ++ b'/' ∷ [] in
      let long : length (base ++ name) ≡ length text + 1 + length name =
        length-append base name ∙ ap (λ k. k + length name) (length-append text (b'/' ∷ [])) in
      let moves =
        walk_in-moves path q buf_len (base ++ name) (fn text directory arg) b
          (omega (arith, long, g)) (omega (arith, long, h, n, b)) e in
      rw (load-holding path buf_len text, ◌>>=◌)
        (rw (grow-short realloc fn path buf_len b text h, grow_in)
          (rw (store-slash realloc fn path buf_len b text (omega (arith, h, b)), open_in)
            (rw (d, entry_in)
              (rw
                (
                  store-name realloc fn path buf_len b text [] name (omega (arith, h, n, b)),
                  visit_in,
                )
                (rw (moves, ◌>>=◌)
                  (entries_in-moved path buf_len (length text + 1) es
                    (holding q (buf_len * 2) (base ++ name))
                    (fn (base ++ name) directory (fn text directory arg)) (λ s. m (sym s))))))))

-- Where `realloc` moves the first buffer, an empty directory whose path is longer than half of it faults the
-- program if it is the first entry of the argument's directory: after the walk below it, dir_walk goes on with
-- the address that `realloc` has released.
pub count_main-moved :
    (realloc : Realloc) (file_path q : ℕ) (arg name : PathName) (es : Entries)
    → length arg ≤ initial_size / 2
    → length name ≤ 255
    → is_dot name ≡ false
    → initial_size / 2 < length arg + 1 + length name
    → realloc file_path (initial_size * 2) ≡ some q
    → q ≢ file_path
    → count_main realloc (some file_path) arg (dir true (entry name (dir true end) es)) ≡ none
unfolding count_main count_from
count_main-moved realloc file_path q arg name es h n d g e m =
    let fits : leb initial_size (length arg) ≡ false = ground arith in
    let large : 514 ≤ initial_size = omega arith in
    let stored = store-holding file_path initial_size [] [] arg (omega (arith, h)) in
    rw fits (
      rw (stored, ◌>>=◌)
        (rw
          (
            walk_in-moved realloc file_callback file_path q initial_size arg name es none_yet large
                h n d g e m,
            ◌>>=◌,
          )
          refl))
