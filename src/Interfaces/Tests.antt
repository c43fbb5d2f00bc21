-- ===== src/Interfaces/Tests.antt =====
-- Three interfaces: one has no address, one an IPv6 address, one an address of another family.
use c_study.Base.{◌≡◌, refl, [], ◌∷◌, false, none, some}
use c_study.Interfaces.{af_inet6, show, show_all, main}

interfaces_run :
    main
      (λ p. b'1' ∷ [])
      (some (
        record { name = b'a' ∷ []; family = none }
        ∷ record { name = b'b' ∷ []; family = some af_inet6 }
        ∷ record { name = b'c' ∷ []; family = some 17 }
        ∷ []))
    ≡ record {
      shown = record { name = b'b' ∷ []; is_v4 = false; host = b'1' ∷ [] } ∷ [];
      status = 0;
    }
unfolding show show_all main
interfaces_run = refl
