-- ===== src/Files/Tests.antt =====
-- apue/section04/count_file_types.c on a small tree.
use c_study.Base.{
  ℕ, zero, suc, ◌+◌, ◌^◌, ◌<◌, length, some, none, arith, ◌≡◌, refl, [], ◌∷◌, true, false, inl, inr,
}
use c_study.Files.Walk.{
  PathName, is_dot, regular, fifo, Mode, Node, missing, file, dir, end, entry, count_file_types,
}
use c_study.Files.Buffer.{Realloc, initial_size, printed, count_main}
use c_study.Files.Short.{IsShort, count_main-count_file_types}
use c_study.Files.Moved.{count_main-moved}
use c_study.Files.Count.{IsReadable, total, is, count_of}
use c_study.Files.Printed.{count_main-count_of}

-- `./a` is a file, `./b` an empty directory.
abbrev tree : Node
tree = dir true (
    entry (b'.' ∷ []) missing (
      entry (b'a' ∷ []) (file regular)
        (entry (b'.' ∷ b'.' ∷ []) missing (entry (b'b' ∷ []) (dir true end) end))))

-- A directory that does not open ends the walk, with a slash behind its path, and what comes after it
-- is not counted.
failing_runs :
    count_file_types
      (b'x' ∷ [])
      (dir true (entry (b'b' ∷ []) (dir false end) (entry (b'a' ∷ []) (file fifo) end)))
    ≡ record {
      failed = true;
      path = b'x' ∷ [];
      arg = record {
        regular_files = 0;
        block_devices = 0;
        character_devices = 0;
        fifos = 0;
        links = 0;
        sockets = 0;
        directories = 2;
      };
    }
unfolding count_file_types
failing_runs = refl

tree-IsReadable : IsReadable tree
unfolding IsReadable
tree-IsReadable = (inl refl, (inr tt, (inl refl, (inr tt, tt))))

abbrev moving : Realloc
moving p n = some (p + 1)

tree-IsShort : IsShort initial_size 1 tree
unfolding IsShort
tree-IsShort = (
  omega arith,
  (
    omega arith,
    inl refl,
    (omega arith, inr tt, (omega arith, inl refl, (omega arith, inr (omega arith, tt), tt))),
  ),
)

count_main-count_file_types_example :
    count_main moving (some 100) (b'x' ∷ []) tree
    ≡ some
        (printed (count_file_types (b'x' ∷ []) tree).path (count_file_types (b'x' ∷ []) tree).arg)
count_main-count_file_types_example =
    count_main-count_file_types moving 100 (b'x' ∷ []) tree (omega arith) tree-IsShort

count_main-count_of_example :
    (count_main moving (some 100) (b'x' ∷ []) tree
      ≡ some (
          printed (b'x' ∷ []) (record {
            regular_files = 1;
            block_devices = 0;
            character_devices = 0;
            fifos = 0;
            links = 0;
            sockets = 0;
            directories = 2;
          })))
    × ((m : Mode) → count_of m tree < 2 ^ 31)
unfolding total is
count_main-count_of_example =
    count_main-count_of moving 100 (b'x' ∷ []) tree (omega arith) tree-IsShort tree-IsReadable
      (omega arith)

-- A path of so many bytes.
unfoldable long_path : ℕ → PathName
long_path zero = []
long_path (suc n) = b'a' ∷ long_path n

length-long_path : (n : ℕ) → length (long_path n) ≡ n
unfolding long_path
length-long_path zero = refl
length-long_path (suc n) = omega (arith, length-long_path n)

-- A path of 2048 bytes, and a directory `d` below it.
count_main-moved_example :
    count_main moving (some 100) (long_path 2048) (dir true (entry (b'd' ∷ []) (dir true end) end))
    ≡ none
unfolding is_dot
count_main-moved_example =
    count_main-moved moving 100 101 (long_path 2048) (b'd' ∷ []) end
      (omega (arith, length-long_path 2048)) (omega arith) refl
      (omega (arith, length-long_path 2048)) refl (λ e. omega (arith, e))
