-- ===== src/Files/Buffer.antt =====
-- apue/section04/count_file_types.c: dir_walk and `main` with the buffer of the path. The program has one
-- buffer at a time; a use of it through an address that it does not have any more, or behind its end, is a
-- fault, `none`. What `realloc` gives for an address and a size is an argument, with `none` for NULL.
use c_study.Base.{
  ℕ, ◌+◌, ◌-◌, ◌*◌, ◌/◌, [], ◌∷◌, ◌++◌, Bool, true, false, Option, none, some, length, take, ltb,
  leb, ◌==◌, ◌&&◌, if◌then◌else◌, ◌>>=◌,
}
use c_study.Files.Walk.{
  PathName, Mode, plain, directory, Node, missing, file, dir, Entries, end, entry, FileStatistic,
  file_callback, none_yet, is_dot,
}

-- The buffer, and the bytes in it up to the first zero byte.
pub record Buffer : Type 0 where
  pub addr : ℕ
  pub size : ℕ
  pub text : PathName

-- A read of the text.
unfoldable pub load : ℕ → Buffer → Option PathName
load path b = if path == b.addr then some b.text else none

-- The bytes `s` and a zero byte, written from the index `at` of the text on.
unfoldable pub store : ℕ → ℕ → PathName → Buffer → Option Buffer
store path at s b =
    if path == b.addr && ltb (at + length s) b.size
    then some (record b { text = take at b.text ++ s })
    else none

-- The address and the size with which a call of dir_walk goes on.
pub record Grown : Type 0 where
  pub path : ℕ
  pub buf_len : ℕ
  pub buffer : Buffer

abbrev pub Realloc : Type 0
Realloc = ℕ → ℕ → Option ℕ

-- `realloc(path, buf_len)`
unfoldable pub resize : Realloc → ℕ → ℕ → Buffer → Option Grown
resize realloc path buf_len b = do
  q ← realloc path buf_len
  some (record { path = q; buf_len = buf_len; buffer = record b { addr = q; size = buf_len } })

-- `if (path_len > buf_len / 2)`
unfoldable pub grow : Realloc → ℕ → ℕ → ℕ → Buffer → Option Grown
unfolding resize
grow realloc path buf_len path_len b =
    if ltb (buf_len / 2) path_len
    then resize realloc path (buf_len * 2) b
    else some (record { path = path; buf_len = buf_len; buffer = b })

-- Whether -1 was returned, the buffer then, and what the callback has made of `arg`.
pub record Left {ℓ} (A : Type ℓ) : Type ℓ where
  pub failed : Bool
  pub buffer : Buffer
  pub arg : A

-- After the loop over the entries.
unfoldable pub close_path {ℓ} : {A : Type ℓ} → ℕ → ℕ → Bool → Left A → Option (Left A)
unfolding store
close_path path path_end failed w = do
  b ← store path (path_end - 1) [] w.buffer
  some (record w { failed = failed; buffer = b })

module _ {ℓ} {A : Type ℓ} where
  -- After the walk below an entry: `more` is the rest of the loop.
  unfoldable pub continue_in : ℕ → ℕ → (Buffer → A → Option (Left A)) → Left A → Option (Left A)
  unfolding close_path
  continue_in path path_end more w = elim w.failed [
    | true ↦ close_path path path_end true w
    | false ↦ more w.buffer w.arg
  ]

  -- The body of the loop for an entry with this name, below which `walk` goes.
  unfoldable pub visit_in :
      ℕ → ℕ → PathName → (walk more : Buffer → A → Option (Left A)) → Buffer → A → Option (Left A)
  unfolding store continue_in
  visit_in path path_end name walk more b arg = do
    b' ← store path path_end name b
    w ← walk b' arg
    continue_in path path_end more w

  unfoldable pub entry_in :
      ℕ → ℕ → PathName → (walk more : Buffer → A → Option (Left A)) → Buffer → A → Option (Left A)
  unfolding is_dot visit_in
  entry_in path path_end name walk more b arg =
      if is_dot name then more b arg else visit_in path path_end name walk more b arg

  -- From the slash to the loop, which is `loop` with the end of the path.
  unfoldable pub open_in :
      Bool → ℕ → (ℕ → ℕ → ℕ → Buffer → A → Option (Left A)) → Grown → A → Option (Left A)
  unfolding store
  open_in opened path_len loop g arg = do
    b ← store g.path path_len (b'/' ∷ []) g.buffer
    elim opened [
      | true ↦ loop g.path g.buf_len (path_len + 1) b arg
      | false ↦ some (record { failed = true; buffer = b; arg = arg })
    ]

  -- `realloc`, and what follows it.
  unfoldable pub grow_in :
      Bool
      → ℕ
      → (ℕ → ℕ → ℕ → Buffer → A → Option (Left A))
      → Buffer
      → Option Grown
      → A
      → Option (Left A)
  unfolding open_in
  grow_in opened path_len loop b none arg = some (record { failed = true; buffer = b; arg = arg })
  grow_in opened path_len loop b (some g) arg = open_in opened path_len loop g arg

module _ {ℓ} {A : Type ℓ} (realloc : Realloc) (fn : PathName → Mode → A → A) where
  -- dir_walk, and its loop over the entries.
  unfoldable mutual
    unfolding load grow grow_in close_path entry_in

    pub walk_in : ℕ → ℕ → Node → Buffer → A → Option (Left A)
    walk_in path buf_len missing b arg = do
      text ← load path b
      some (record { failed = true; buffer = b; arg = arg })
    walk_in path buf_len (file k) b arg = do
      text ← load path b
      some (record { failed = false; buffer = b; arg = fn text (plain k) arg })
    walk_in path buf_len (dir opened es) b arg = do
      text ← load path b
      grow_in opened (length text) (λ p n path_end. entries_in p n path_end es) b
          (grow realloc path buf_len (length text) b) (fn text directory arg)

    pub entries_in : ℕ → ℕ → ℕ → Entries → Buffer → A → Option (Left A)
    entries_in path buf_len path_end end b arg =
        close_path path path_end false (record { failed = false; buffer = b; arg = arg })
    entries_in path buf_len path_end (entry name node es) b arg =
        entry_in path path_end name (walk_in path buf_len node)
          (entries_in path buf_len path_end es) b arg

-- How `main` ends, with what print_statistic gets.
pub data Ended : Type 0 where
  stopped : (status : ℕ) → Ended
  printed : (path : PathName) → (statistic : FileStatistic) → Ended

-- PATH_MAX + 1
abbrev pub initial_size : ℕ
initial_size = 4097

-- `main` from strcpy on; `free` needs the same address as the read for print_statistic.
unfoldable pub count_from : Realloc → PathName → Node → Grown → Option Ended
unfolding store load walk_in file_callback
count_from realloc arg node g = do
  b ← store g.path 0 arg g.buffer
  w ← walk_in realloc file_callback g.path g.buf_len node b none_yet
  text ← load g.path w.buffer
  some (printed text w.arg)

-- `main` with its argument, and what `malloc` gives.
unfoldable pub count_main : Realloc → Option ℕ → PathName → Node → Option Ended
unfolding resize count_from
count_main realloc none arg node = some (stopped 1)
count_main realloc (some file_path) arg node =
    let b : Buffer = record { addr = file_path; size = initial_size; text = [] } in
    if leb initial_size (length arg)
    then elim (resize realloc file_path (length arg * 2) b) [
      | none ↦ some (stopped 1)
      | some g ↦ count_from realloc arg node g
    ]
    else count_from realloc arg node
        (record { path = file_path; buf_len = initial_size; buffer = b })
