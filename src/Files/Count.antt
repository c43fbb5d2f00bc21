-- ===== src/Files/Count.antt =====
-- apue/section04/count_file_types.c: what the statistic counts.
use c_study.Base.{
  ℕ, ◌+◌, ◌≡◌, refl, [], ◌∷◌, ◌++◌, true, false, arith, ◌==◌, if◌then◌else◌, Bool-cases, ◌⊎◌, inl,
  inr,
}
use c_study.Files.Walk.{
  PathName, regular, block, character, fifo, link, socket, other, Mode, plain, directory, Node,
  missing, file, dir, Entries, end, entry, FileStatistic, file_callback, Walked, is_dot, dir_walk,
  walk_entries, none_yet, count_file_types,
}

-- Every entry answers to `lstat`, and every directory opens.
unfoldable mutual
  unfolding is_dot

  pub IsReadable : Node → Type 0
  IsReadable missing = ⊥
  IsReadable (file k) = Unit
  IsReadable (dir false es) = ⊥
  IsReadable (dir true es) = AllReadable es

  pub AllReadable : Entries → Type 0
  AllReadable end = Unit
  AllReadable (entry name node es) = ((is_dot name ≡ true) ⊎ IsReadable node) × AllReadable es

-- The sum of a weight over a node and all nodes below it, the entries `.` and `..` left out.
unfoldable mutual
  unfolding is_dot

  pub total : (Mode → ℕ) → Node → ℕ
  total f missing = 0
  total f (file k) = f (plain k)
  total f (dir opened es) = f directory + total_entries f es

  pub total_entries : (Mode → ℕ) → Entries → ℕ
  total_entries f end = 0
  total_entries f (entry name node es) =
      let more = total_entries f es in if is_dot name then more else total f node + more

module _ {ℓ} {A : Type ℓ} (fn : PathName → Mode → A → A) (g : A → ℕ) (f : Mode → ℕ)
    (law : (path : PathName) (m : Mode) (arg : A) → g (fn path m arg) ≡ g arg + f m) where
  -- A walk that does not fail and adds a weight.
  abbrev Adds : ℕ → A → Walked A → Type 0
  Adds n arg w = (w.failed ≡ false) × (g w.arg ≡ g arg + n)

  mutual
    unfolding dir_walk IsReadable total

    dir_walk-Adds :
        (path : PathName) (node : Node) (arg : A)
        → IsReadable node
        → Adds (total f node) arg (dir_walk fn path node arg)
    dir_walk-Adds path missing arg h = absurd h
    dir_walk-Adds path (dir false es) arg h = absurd h
    dir_walk-Adds path (file k) arg h = (refl, law path (plain k) arg)
    dir_walk-Adds path (dir true es) arg h =
        let (ok, sum) = walk_entries-Adds (path ++ b'/' ∷ []) es (fn path directory arg) h in
        (ok, omega (arith, sum, law path directory arg))

    walk_entries-Adds :
        (base : PathName) (es : Entries) (arg : A)
        → AllReadable es
        → Adds (total_entries f es) arg (walk_entries fn base es arg)
    walk_entries-Adds base end arg h = (refl, omega arith)
    walk_entries-Adds base (entry name node es) arg h = elim (Bool-cases (is_dot name)) [
      | inl t ↦
          let tail = walk_entries-Adds base es arg h.1 in rw (t, walk_entries, total_entries) tail
      | inr f ↦ elim h.0 [
        | inl t ↦ ground arith
        | inr readable ↦
            let head = dir_walk-Adds (base ++ name) node arg readable in
            let tail = walk_entries-Adds base es (dir_walk fn (base ++ name) node arg).arg h.1 in
            (ground (arith, head, tail), ground (arith, head, tail))
      ]
    ]

-- The modes that are told apart.
number : Mode → ℕ
number (plain regular) = 0
number (plain block) = 1
number (plain character) = 2
number (plain fifo) = 3
number (plain link) = 4
number (plain socket) = 5
number directory = 6
number (plain other) = 7

-- 1 for the given mode, and 0 for any other.
unfoldable pub is : Mode → Mode → ℕ
unfolding number
is m m' = if number m == number m' then 1 else 0

-- The number of nodes of a mode.
abbrev pub count_of : Mode → Node → ℕ
count_of m node = total (is m) node

file_callback-is :
    (path : PathName) (m : Mode) (s : FileStatistic)
    → ((file_callback path m s).regular_files ≡ s.regular_files + is (plain regular) m)
      × ((file_callback path m s).block_devices ≡ s.block_devices + is (plain block) m)
      × ((file_callback path m s).character_devices ≡ s.character_devices + is (plain character) m)
      × ((file_callback path m s).fifos ≡ s.fifos + is (plain fifo) m)
      × ((file_callback path m s).links ≡ s.links + is (plain link) m)
      × ((file_callback path m s).sockets ≡ s.sockets + is (plain socket) m)
      × ((file_callback path m s).directories ≡ s.directories + is directory m)
unfolding file_callback is
file_callback-is path (plain regular) s = ground arith
file_callback-is path (plain block) s = ground arith
file_callback-is path (plain character) s = ground arith
file_callback-is path (plain fifo) s = ground arith
file_callback-is path (plain link) s = ground arith
file_callback-is path (plain socket) s = ground arith
file_callback-is path (plain other) s = ground arith
file_callback-is path directory s = ground arith

module _ (path : PathName) (node : Node) (h : IsReadable node) (field : FileStatistic → ℕ)
    (m : Mode)
    (law : (p : PathName) (m' : Mode) (s : FileStatistic)
      → field (file_callback p m' s) ≡ field s + is m m') where
  -- A field that counts the nodes of a mode.
  counted :
      field none_yet ≡ 0
      → ((count_file_types path node).failed ≡ false)
        × (field (count_file_types path node).arg ≡ count_of m node)
  unfolding count_file_types
  counted z =
      let (ok, sum) = dir_walk-Adds file_callback field (is m) law path node none_yet h in
      (ok, omega (arith, sum, z))

-- The walk without the buffer: if every entry below a path answers to `lstat` and every directory opens, dir_walk succeeds from a
-- statistic of zeros, and each of the seven counters is the number of nodes of its mode in the whole
-- tree, its root included and the entries `.` and `..` of each directory left out.
pub count_file_types-count_of :
    (path : PathName) (node : Node)
    → IsReadable node
    → ((count_file_types path node).failed ≡ false)
      × ((count_file_types path node).arg ≡ record {
        regular_files = count_of (plain regular) node;
        block_devices = count_of (plain block) node;
        character_devices = count_of (plain character) node;
        fifos = count_of (plain fifo) node;
        links = count_of (plain link) node;
        sockets = count_of (plain socket) node;
        directories = count_of directory node;
      })
count_file_types-count_of path node h =
    let at : (field : FileStatistic → ℕ) (m : Mode)
        → ((p : PathName) (m' : Mode) (s : FileStatistic)
            → field (file_callback p m' s) ≡ field s + is m m')
        → field none_yet ≡ 0
        → ((count_file_types path node).failed ≡ false)
          × (field (count_file_types path node).arg ≡ count_of m node) =
      counted path node h in
    let (ok0, regular_files_of) =
      at (λ s. s.regular_files) (plain regular) (λ p m s. (file_callback-is p m s).0) refl in
    let (_, block_devices_of) =
      at (λ s. s.block_devices) (plain block) (λ p m s. (file_callback-is p m s).1) refl in
    let (_, character_devices_of) =
      at (λ s. s.character_devices) (plain character) (λ p m s. (file_callback-is p m s).2) refl in
    let (_, fifos_of) = at (λ s. s.fifos) (plain fifo) (λ p m s. (file_callback-is p m s).3) refl in
    let (_, links_of) = at (λ s. s.links) (plain link) (λ p m s. (file_callback-is p m s).4) refl in
    let (_, sockets_of) =
      at (λ s. s.sockets) (plain socket) (λ p m s. (file_callback-is p m s).5) refl in
    let (_, directories_of) =
      at (λ s. s.directories) directory (λ p m s. (file_callback-is p m s).6) refl in
    (
      ok0,
      λ i. record {
        regular_files = regular_files_of i;
        block_devices = block_devices_of i;
        character_devices = character_devices_of i;
        fifos = fifos_of i;
        links = links_of i;
        sockets = sockets_of i;
        directories = directories_of i;
      },
    )
