-- ===== src/Files/Walk.antt =====
-- apue/section04/count_file_types.c: file_callback, and the walk over a tree as it is meant, without the buffer
-- of the path; dir_walk of the program, with its buffer, is Files/Buffer. The counters are ints: their values
-- here are those of the program for trees of fewer than 2^31 nodes.
use c_study.Base.{ℕ, ◌+◌, List, [], ◌∷◌, ◌++◌, Bool, true, false, ◌&&◌, ◌==◌, if◌then◌else◌}

abbrev pub PathName : Type 0
PathName = List ℕ

-- What `lstat` says of an entry that is no directory. `other` is none of those the program knows.
pub data Kind : Type 0 where
  regular block character fifo link socket other : Kind

pub data Mode : Type 0 where
  plain : Kind → Mode
  directory : Mode

-- A file system below a path: an entry that `lstat` refuses, a file, or a directory, with whether
-- `opendir` succeeds on it and what `readdir` then gives.
mutual
  pub data Node : Type 0 where
    missing : Node
    file : Kind → Node
    dir : Bool → Entries → Node

  pub data Entries : Type 0 where
    end : Entries
    entry : PathName → Node → Entries → Entries

pub record FileStatistic : Type 0 where
  pub regular_files : ℕ
  pub block_devices : ℕ
  pub character_devices : ℕ
  pub fifos : ℕ
  pub links : ℕ
  pub sockets : ℕ
  pub directories : ℕ

unfoldable pub file_callback : PathName → Mode → FileStatistic → FileStatistic
file_callback path (plain regular) s = record s { regular_files = s.regular_files + 1 }
file_callback path (plain block) s = record s { block_devices = s.block_devices + 1 }
file_callback path (plain character) s = record s { character_devices = s.character_devices + 1 }
file_callback path (plain fifo) s = record s { fifos = s.fifos + 1 }
file_callback path (plain link) s = record s { links = s.links + 1 }
file_callback path (plain socket) s = record s { sockets = s.sockets + 1 }
file_callback path (plain other) s = s
file_callback path directory s = record s { directories = s.directories + 1 }

-- Whether -1 was returned, what the path buffer holds then, and what the callback has made of `arg`.
pub record Walked {ℓ} (A : Type ℓ) : Type ℓ where
  pub failed : Bool
  pub path : PathName
  pub arg : A

-- `strcmp(name, ".") == 0 || strcmp(name, "..") == 0`
unfoldable pub is_dot : PathName → Bool
is_dot (c ∷ []) = c == b'.'
is_dot (c ∷ d ∷ []) = c == b'.' && d == b'.'
is_dot _ = false

-- The walk, and its loop over the entries behind the path `base`, which ends with a slash.
unfoldable mutual
  unfolding is_dot

  pub dir_walk {ℓ} : {A : Type ℓ} → (PathName → Mode → A → A) → PathName → Node → A → Walked A
  dir_walk fn path missing arg = record { failed = true; path = path; arg = arg }
  dir_walk fn path (file k) arg = record {
    failed = false;
    path = path;
    arg = fn path (plain k) arg;
  }
  dir_walk fn path (dir false es) arg = record {
    failed = true;
    path = path ++ b'/' ∷ [];
    arg = fn path directory arg;
  }
  dir_walk fn path (dir true es) arg =
      let walked = walk_entries fn (path ++ b'/' ∷ []) es (fn path directory arg) in
      record { failed = walked.failed; path = path; arg = walked.arg }

  pub walk_entries {ℓ} :
      {A : Type ℓ} → (PathName → Mode → A → A) → PathName → Entries → A → Walked A
  walk_entries fn base end arg = record { failed = false; path = base; arg = arg }
  walk_entries fn base (entry name node es) arg =
      let inner = dir_walk fn (base ++ name) node arg in
      let more = walk_entries fn base es (if is_dot name then arg else inner.arg) in
      if is_dot name then more else (if inner.failed then inner else more)

abbrev pub none_yet : FileStatistic
none_yet = record {
  regular_files = 0;
  block_devices = 0;
  character_devices = 0;
  fifos = 0;
  links = 0;
  sockets = 0;
  directories = 0;
}

-- The statistic that `main` prints, with the path that it prints above it.
unfoldable pub count_file_types : PathName → Node → Walked FileStatistic
unfolding dir_walk file_callback
count_file_types path node = dir_walk file_callback path node none_yet
