-- ===== src/Echo/Prefork.antt =====
-- prefork_server01/main.c: a child, which serves one client after the other.
use c_study.Base.{
  ℕ, ◌≡◌, refl, ap, ◌∙◌, List, [], ◌∷◌, ◌++◌, Bool, true, false, Option, none, some, map, All,
  if◌then◌else◌,
}
use c_study.Filters.Input.{Bytes, content}
use c_study.Echo.Connection.{
  Exchange, Served, serve_client, received, IsWhole, serve_client-content,
}

-- What the clients of a child got, one after the other, and whether the child still waits in `accept`.
pub record Child : Type 0 where
  pub echoed : List Bytes
  pub waiting : Bool

abbrev add_client : Served → Child → Child
add_client c rest = record {
  echoed = c.echoed ∷ (if c.alive then rest.echoed else []);
  waiting = if c.alive then rest.waiting else false;
}

-- The loop over `accept`, with `none` for -1.
unfoldable pub child : (ℕ → ℕ) → List (Option (List Exchange)) → Child
unfolding serve_client
child toupper [] = record { echoed = []; waiting = true }
child toupper (none ∷ clients) = record { echoed = []; waiting = false }
child toupper (some client_sock ∷ clients) =
    add_client (serve_client toupper client_sock) (child toupper clients)

-- A child sends each client, as long as no call fails and `send` takes all bytes, all bytes of that client
-- back in upper case however the reads cut them and whether they are interrupted, and then goes on with
-- the later clients.
pub child_lem :
    (toupper : ℕ → ℕ) (clients : List (List Exchange)) (later : List (Option (List Exchange)))
    → All (All IsWhole) clients
    → child toupper (map some clients ++ later) ≡ record {
      echoed =
          map (λ sock. map toupper (content (map received sock))) clients
          ++ (child toupper later).echoed;
      waiting = (child toupper later).waiting;
    }
unfolding child
child_lem toupper [] later w = refl
child_lem toupper (client_sock ∷ clients) later w =
    ap (λ c. add_client c (child toupper (map some clients ++ later)))
      (serve_client-content toupper client_sock w.0)
    ∙ ap
        (add_client
          (record { echoed = map toupper (content (map received client_sock)); alive = true }))
        (child_lem toupper clients later w.1)
