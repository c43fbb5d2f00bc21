-- ===== src/Ares/Tests.antt =====
-- A library whose channel counts the rounds until the answer comes.
use c_study.Base.{
  ℕ, zero, suc, ◌-◌, ◌≡◌, refl, ap, ◌+◌, length, List, [], ◌∷◌, none, some, true, arith,
}
use c_study.Ares.Library.{Answer, success, Library}
use c_study.Ares.Lookup.{callback, wait_ares, printed, main, found, ip}

abbrev here : Answer
here = success (some (record { name = b'h' ∷ []; addresses = (b'1' ∷ []) ∷ (b'2' ∷ []) ∷ [] }))

abbrev given : ℕ → List Answer
given zero = here ∷ []
given (suc n) = []

abbrev open_queries : ℕ → ℕ
open_queries zero = 0
open_queries (suc n) = 1

balance : (n : ℕ) → length (given n) + open_queries n ≡ 1
balance zero = omega arith
balance (suc n) = omega arith

abbrev slow : Library
slow = record {
  Channel = ℕ;
  ares_fds = λ n. n;
  ares_process = λ n. n - 1;
  given = given;
  asked = λ n. 1;
  open_queries = open_queries;
  attempts = λ n. n;
  fds_lem = λ n e. ap open_queries e;
  answered_once = balance;
  asked-process = λ n. refl;
  attempts_fall = λ n h. omega arith;
}

main_runs :
    main slow 6 true true (λ host. 5) none
    ≡ some (record { lines = found (b'h' ∷ []) ∷ ip (b'1' ∷ []) ∷ ip (b'2' ∷ []) ∷ []; status = 0 })
unfolding main wait_ares printed callback
main_runs = refl
