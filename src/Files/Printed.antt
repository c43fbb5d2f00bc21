-- ===== src/Files/Printed.antt =====
-- apue/section04/count_file_types.c, `main` as a whole: what it prints of a tree that it can read.
use c_study.Base.{ℕ, ◌^◌, ◌≤◌, ◌<◌, ◌≡◌, refl, ap, ◌∙◌, true, false, some, length, arith}
use c_study.Files.Walk.{
  PathName, regular, block, character, fifo, link, socket, Mode, plain, directory, Node, missing,
  file, dir, Entries, end, entry, dir_walk, count_file_types,
}
use c_study.Files.Buffer.{Realloc, initial_size, printed, count_main}
use c_study.Files.Count.{IsReadable, total, total_entries, is, count_of, count_file_types-count_of}
use c_study.Files.Short.{IsShort, count_main-count_file_types}

-- The number of nodes of a tree, the entries `.` and `..` left out.
abbrev pub size_of : Node → ℕ
size_of node = total (λ m. 1) node

module _ (f g : Mode → ℕ) (le : (m : Mode) → f m ≤ g m) where
  mutual
    unfolding total

    total-le : (node : Node) → total f node ≤ total g node
    total-le missing = omega arith
    total-le (file k) = le (plain k)
    total-le (dir opened es) = omega (arith, le directory, total_entries-le es)

    total_entries-le : (es : Entries) → total_entries f es ≤ total_entries g es
    total_entries-le end = omega arith
    total_entries-le (entry name node es) = ground (arith, total-le node, total_entries-le es)

is-le : (m m' : Mode) → is m m' ≤ 1
unfolding is
is-le m m' = ground arith

count_of-size_of : (m : Mode) (node : Node) → count_of m node ≤ size_of node
count_of-size_of m node = total-le (is m) (λ m'. 1) (is-le m) node

dir_walk-path_same :
    (path : PathName) (node : Node) → IsReadable node → (count_file_types path node).path ≡ path
unfolding count_file_types dir_walk IsReadable
dir_walk-path_same path missing h = absurd h
dir_walk-path_same path (file k) h = refl
dir_walk-path_same path (dir true es) h = refl
dir_walk-path_same path (dir false es) h = absurd h

-- For a tree that can be read, with fewer than 2^31 nodes, the paths within the limits of its first buffer,
-- `main` makes no bad use of its buffer and prints its argument with, for each of the seven modes, the number
-- of nodes of that mode in the tree, its root included and the entries `.` and `..` of each directory left
-- out; each of these numbers fits into the int that counts it.
pub count_main-count_of :
    (realloc : Realloc) (file_path : ℕ) (arg : PathName) (node : Node)
    → length arg < initial_size
    → IsShort initial_size (length arg) node
    → IsReadable node
    → size_of node < 2 ^ 31
    → (count_main realloc (some file_path) arg node
        ≡ some (
            printed arg (record {
              regular_files = count_of (plain regular) node;
              block_devices = count_of (plain block) node;
              character_devices = count_of (plain character) node;
              fifos = count_of (plain fifo) node;
              links = count_of (plain link) node;
              sockets = count_of (plain socket) node;
              directories = count_of directory node;
            })))
      × ((m : Mode) → count_of m node < 2 ^ 31)
count_main-count_of realloc file_path arg node l h readable small =
    let (ok, counts) = count_file_types-count_of arg node readable in
    (
      count_main-count_file_types realloc file_path arg node l h
          ∙ ap (λ p. some (printed p (count_file_types arg node).arg))
              (dir_walk-path_same arg node readable)
          ∙ ap (λ s. some (printed arg s)) counts,
      λ m. omega (arith, count_of-size_of m node, small),
    )
