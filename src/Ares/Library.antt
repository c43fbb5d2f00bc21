-- ===== src/Ares/Library.antt =====
-- What c-ares01/main.c uses of c-ares, which is no part of the repository.
use c_study.Base.{ℕ, ◌+◌, ◌≡◌, ◌<◌, ◌≤◌, List, Option, length}

abbrev pub Bytes : Type 0
Bytes = List ℕ

-- `struct hostent`: the name, and the addresses as inet_ntop writes them.
pub record Host : Type 0 where
  pub name : Bytes
  pub addresses : List Bytes

-- What the library gives to the callback: a status that is not ARES_SUCCESS, or a host, which may be NULL.
pub data Answer : Type 0 where
  failure : (status : ℕ) → Answer
  success : (host : Option Host) → Answer

-- A channel and the operations on it. `given` lists what the callback was given, `asked` counts the queries
-- and `open_queries` those of them without an answer; each query is answered once. `attempts` is the number
-- of tries and timeouts that the open queries have left: `select` waits no longer than ares_timeout says, and
-- every round of it and ares_process uses one at least.
pub record Library : Type 1 where
  pub Channel : Type 0
  pub ares_fds : Channel → ℕ
  pub ares_process : Channel → Channel
  pub given : Channel → List Answer
  pub asked : Channel → ℕ
  pub open_queries : Channel → ℕ
  pub attempts : Channel → ℕ
  pub fds_lem : (c : Channel) → ares_fds c ≡ 0 → open_queries c ≡ 0
  pub answered_once : (c : Channel) → length (given c) + open_queries c ≡ asked c
  pub asked-process : (c : Channel) → asked (ares_process c) ≡ asked c
  pub attempts_fall : (c : Channel) → 1 ≤ ares_fds c → attempts (ares_process c) < attempts c
