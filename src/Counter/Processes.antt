-- ===== src/Counter/Processes.antt =====
-- eventfd01/main.c. The counter of the eventfd is a number below 2^64 - 1. The numbers that `strtoull` makes
-- of the arguments are a list. Each system call is a step; a `write` that would take the counter to
-- 2^64 - 1 or more blocks, and so does a `read` of 0. No other process has the descriptor.
use c_study.Base.{ℕ, ◌+◌, ◌-◌, ◌^◌, ◌≤◌, ◌<◌, ◌≡◌, List, [], ◌∷◌}

-- What the counter cannot hold.
abbrev pub limit : ℕ
limit = 2 ^ 64 - 1

-- Where the child stands.
pub data Child : Type 0 where
  writing : (args : List ℕ) → Child  -- the arguments that are left in its loop
  exited : (status : ℕ) → Child

-- Where the parent stands.
pub data Parent : Type 0 where
  sleeping : Parent  -- in `sleep(3)`
  reading : Parent  -- before its `read`
  finished : (num : ℕ) → Parent  -- after "parent read"

pub record System : Type 0 where
  pub efd : ℕ
  pub child : Child
  pub parent : Parent

-- After `eventfd(0, 0)` and `fork`.
abbrev pub start : List ℕ → System
start args = record { efd = 0; child = writing args; parent = sleeping }

pub data Step (s : System) : System → Type 0 where
  write :
      {num : ℕ} {args : List ℕ}
      → s.child ≡ writing (num ∷ args)
      → s.efd + num < limit
      → Step s (record s { efd = s.efd + num; child = writing args })
  -- `write` does not take the number 2^64 - 1.
  refuse :
      {num : ℕ} {args : List ℕ}
      → s.child ≡ writing (num ∷ args)
      → limit ≤ num
      → Step s (record s { child = exited 1 })
  finish : s.child ≡ writing [] → Step s (record s { child = exited 0 })
  wake : s.parent ≡ sleeping → Step s (record s { parent = reading })
  read : s.parent ≡ reading → 1 ≤ s.efd → Step s (record s { efd = 0; parent = finished s.efd })

pub data Reach (args : List ℕ) : System → Type 0 where
  here : Reach args (start args)
  next : {s t : System} → Reach args s → Step s t → Reach args t
