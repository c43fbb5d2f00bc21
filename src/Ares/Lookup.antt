-- ===== src/Ares/Lookup.antt =====
-- c-ares01/main.c: the callback, wait_ares and `main`, over a library.
use c_study.Base.{
  ℕ, zero, suc, List, [], ◌∷◌, ◌++◌, Bool, true, false, Option, none, some, map, ◌==◌,
  if◌then◌else◌, ◌>>=◌,
}
use c_study.Ares.Library.{Bytes, Answer, failure, success, Library}

-- What the callback prints.
pub data Line : Type 0 where
  failed_to_lookup : (status : ℕ) → Line
  host_is_null : Line
  found : (name : Bytes) → Line
  ip : (address : Bytes) → Line

unfoldable pub callback : Answer → List Line
callback (failure status) = failed_to_lookup status ∷ []
callback (success none) = host_is_null ∷ []
callback (success (some host)) = found host.name ∷ map ip host.addresses

-- All that the callback has printed for these answers.
unfoldable pub printed : List Answer → List Line
unfolding callback
printed [] = []
printed (a ∷ answers) = callback a ++ printed answers

abbrev pub google : Bytes
google = b'g' ∷ b'o' ∷ b'o' ∷ b'g' ∷ b'l' ∷ b'e' ∷ b'.' ∷ b'c' ∷ b'o' ∷ b'm' ∷ []

-- The host that `main` asks for.
abbrev pub host_of : Option Bytes → Bytes
host_of none = google
host_of (some name) = name

-- How `main` ends.
pub record Ended : Type 0 where
  pub lines : List Line
  pub status : ℕ

module _ (l : Library) where
  open l use {Channel, given, ares_fds, ares_process}

  -- wait_ares on fuel
  unfoldable pub wait_ares : ℕ → Channel → Option Channel
  wait_ares zero c = none
  wait_ares (suc fuel) c =
      let more = wait_ares fuel (ares_process c) in if ares_fds c == 0 then some c else more

  -- `main`: ares_library_init and ares_init_options may fail, ares_gethostbyname opens a query on the channel.
  unfoldable pub main :
      ℕ → (library channel : Bool) → (Bytes → Channel) → Option Bytes → Option Ended
  unfolding wait_ares printed
  main fuel false channel gethostbyname arg = some (record { lines = []; status = 1 })
  main fuel true false gethostbyname arg = some (record { lines = []; status = 1 })
  main fuel true true gethostbyname arg = do
    c ← wait_ares fuel (gethostbyname (host_of arg))
    some (record { lines = printed (given c); status = 0 })
