-- ===== src/Echo/Family.antt =====
-- prefork_server01/main.c, `main`: the parent and its children.
use mathlib.Core.List.{append-nil}
use c_study.Base.{
  ℕ, zero, suc, ◌<◌, ◌≡◌, refl, ap, ◌∙◌, sym, List, [], ◌∷◌, map, Bool, true, false, Option, none,
  some, All, length, not, ◌&&◌, if◌then◌else◌, arith,
}
use c_study.Filters.Input.{content}
use c_study.Opening.Calls.{Calls, stopped, opened, open_prefork, minus_one}
use c_study.Echo.Connection.{Exchange, IsWhole, received}
use c_study.Echo.Prefork.{Child, child, child_lem}

abbrev pub num_children : ℕ
num_children = 10

-- What a child meets in its loop over `accept`.
abbrev pub Clients : Type 0
Clients = List (Option (List Exchange))

-- The children that were started, and whether no `fork` failed.
pub record Forked : Type 0 where
  pub children : List Child
  pub complete : Bool

-- The loop over `fork`, of which so many rounds are left. A plan is what the child of a round meets, with
-- `none` for a `fork` that fails; after the last plan children meet no clients.
unfoldable pub fork_loop : (ℕ → ℕ) → ℕ → List (Option Clients) → Forked
unfolding child
fork_loop toupper zero plans = record { children = []; complete = true }
fork_loop toupper (suc rounds) [] =
    let rest = fork_loop toupper rounds [] in
    record rest { children = child toupper [] ∷ rest.children }
fork_loop toupper (suc rounds) (none ∷ plans) = record { children = []; complete = false }
fork_loop toupper (suc rounds) (some clients ∷ plans) =
    let rest = fork_loop toupper rounds plans in
    record rest { children = child toupper clients ∷ rest.children }

unfoldable pub all_ended : List Child → Bool
all_ended [] = true
all_ended (c ∷ children) = not c.waiting && all_ended children

-- The children, and the status of the parent, with `none` while it is in `waitpid`.
pub record Family : Type 0 where
  pub children : List Child
  pub status : Option ℕ

-- The parent from its loop on: `waitpid` gives the children that have ended until there is none left.
unfoldable pub wait_children : Forked → Family
unfolding all_ended
wait_children f = record {
  children = f.children;
  status = if f.complete then (if all_ended f.children then some 0 else none) else some minus_one;
}

unfoldable pub prefork_main : (ℕ → ℕ) → Calls → List (Option Clients) → Family
unfolding open_prefork fork_loop wait_children
prefork_main toupper calls plans = elim (open_prefork calls) [
  | stopped status ↦ record { children = []; status = some status }
  | opened sock ↦ wait_children (fork_loop toupper num_children plans)
]

-- What a child has sent to clients of which no call fails, when it waits for the next one.
abbrev pub served : (ℕ → ℕ) → List (List Exchange) → Child
served toupper clients = record {
  echoed = map (λ sock. map toupper (content (map received sock))) clients;
  waiting = true;
}

child-served :
    (toupper : ℕ → ℕ) (clients : List (List Exchange))
    → All (All IsWhole) clients
    → child toupper (map some clients) ≡ served toupper clients
unfolding child
child-served toupper clients w =
    ap (child toupper) (sym (append-nil (map some clients)))
    ∙ child_lem toupper clients [] w
    ∙ ap (λ l. record { echoed = l; waiting = true })
        (append-nil (map (λ sock. map toupper (content (map received sock))) clients))

fork_loop-served :
    (toupper : ℕ → ℕ) (rounds : ℕ) (groups : List (List (List Exchange)))
    → All (All (All IsWhole)) groups
    → length groups ≡ rounds
    → fork_loop toupper rounds (map (λ g. some (map some g)) groups)
      ≡ record { children = map (served toupper) groups; complete = true }
unfolding fork_loop
fork_loop-served toupper zero [] w e = refl
fork_loop-served toupper zero (g ∷ groups) w e = absurd (omega (arith, e))
fork_loop-served toupper (suc rounds) [] w e = absurd (omega (arith, e))
fork_loop-served toupper (suc rounds) (g ∷ groups) w e =
    rw (fork_loop-served toupper rounds groups w.1 (omega (arith, e))) (
      ap (λ (c : Child). record { children = c ∷ map (served toupper) groups; complete = true })
        (child-served toupper g w.0))

waiting-all_ended :
    (toupper : ℕ → ℕ) (groups : List (List (List Exchange)))
    → 0 < length groups
    → all_ended (map (served toupper) groups) ≡ false
unfolding all_ended
waiting-all_ended toupper [] h = absurd (omega (arith, h))
waiting-all_ended toupper (g ∷ groups) h = refl

-- If all calls of the beginning succeed and ten groups of clients come to the children, of which no call
-- fails and `send` takes all bytes, then there are ten children, each of them has sent each client of its
-- group all bytes of that client in upper case however the reads cut them, and waits for the next client;
-- and the parent waits.
pub prefork_main-served :
    (toupper : ℕ → ℕ) (sock : ℕ) (groups : List (List (List Exchange)))
    → All (All (All IsWhole)) groups
    → length groups ≡ num_children
    → prefork_main toupper
        (record { socket = some sock; setsockopt = true; bind = true; listen = true })
        (map (λ g. some (map some g)) groups)
      ≡ record { children = map (served toupper) groups; status = none }
unfolding prefork_main open_prefork wait_children
prefork_main-served toupper sock groups w e =
    rw (fork_loop-served toupper num_children groups w e)
      (rw (waiting-all_ended toupper groups (omega (arith, e))) refl)
