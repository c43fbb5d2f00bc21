-- ===== src/Interfaces.antt =====
-- HandsOnNetworkProgrammingWithC/interface_address/main.c. The list of getifaddrs is an argument, and so is
-- what getnameinfo writes for an interface.
mod Tests
use c_study.Base.{
  ℕ, ◌≡◌, refl, ap, List, [], ◌∷◌, ◌++◌, Bool, Option, none, some, ◌==◌, ◌||◌, if◌then◌else◌, arith,
}

abbrev pub Bytes : Type 0
Bytes = List ℕ

-- AF_INET and AF_INET6
abbrev pub af_inet : ℕ
af_inet = 2

abbrev pub af_inet6 : ℕ
af_inet6 = 10

-- `struct ifaddrs`, with the family of `ifa_addr` or `none` for NULL.
pub record Interface : Type 0 where
  pub name : Bytes
  pub family : Option ℕ

-- A line that is printed.
pub record Shown : Type 0 where
  pub name : Bytes
  pub is_v4 : Bool
  pub host : Bytes

-- The body of the loop for an address of this family.
unfoldable pub show : (Interface → Bytes) → Interface → ℕ → List Shown
show getnameinfo p family =
    if family == af_inet || family == af_inet6
    then (record { name = p.name; is_v4 = family == af_inet; host = getnameinfo p }) ∷ []
    else []

unfoldable pub show_all : (Interface → Bytes) → List Interface → List Shown
unfolding show
show_all getnameinfo [] = []
show_all getnameinfo (p ∷ addresses) = elim p.family [
  | none ↦ show_all getnameinfo addresses
  | some family ↦ show getnameinfo p family ++ show_all getnameinfo addresses
]

-- What `main` prints and returns.
pub record Listed : Type 0 where
  pub shown : List Shown
  pub status : ℕ

unfoldable pub main : (Interface → Bytes) → Option (List Interface) → Listed
unfolding show_all
main getnameinfo none = record { shown = []; status = 1 }
main getnameinfo (some addresses) = record { shown = show_all getnameinfo addresses; status = 0 }
