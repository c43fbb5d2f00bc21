-- ===== src/Filters/EchoPrint.antt =====
-- apue/section01/echo_print.c: the standard input, copied.
use c_study.Base.{◌≡◌, refl, ap, ◌≢◌, List, [], ◌∷◌, true, false, take, All}
use c_study.Filters.Input.{Read, eintr, failure, got}
use c_study.Filters.Cat.{Write, full, short, failed, Copied, before, do_cat}

-- `main`; `exited` says that it returns 1.
unfoldable pub echo_print : List Read → List Write → Copied
echo_print [] ws = record { out = []; exited = false }
echo_print (eintr ∷ fd) ws = record { out = []; exited = true }
echo_print (failure ∷ fd) ws = record { out = []; exited = true }
echo_print (got [] ∷ fd) ws = record { out = []; exited = false }
echo_print (got (c ∷ buffer) ∷ fd) [] = before (c ∷ buffer) (echo_print fd [])
echo_print (got (c ∷ buffer) ∷ fd) (full ∷ ws) = before (c ∷ buffer) (echo_print fd ws)
echo_print (got (c ∷ buffer) ∷ fd) (short k ∷ ws) = before (take k (c ∷ buffer)) (echo_print fd ws)
echo_print (got (c ∷ buffer) ∷ fd) (failed ∷ ws) = record { out = []; exited = true }

-- Where no read is interrupted, it does what do_cat of cat.c does, also with short writes and errors.
echo_print-do_cat :
    (fd : List Read) (ws : List Write) → All (λ r. r ≢ eintr) fd → echo_print fd ws ≡ do_cat fd ws
unfolding echo_print do_cat
echo_print-do_cat [] ws h = refl
echo_print-do_cat (eintr ∷ fd) ws h = absurd (h.0 refl)
echo_print-do_cat (failure ∷ fd) ws h = refl
echo_print-do_cat (got [] ∷ fd) ws h = refl
echo_print-do_cat (got (c ∷ buffer) ∷ fd) [] h =
    ap (before (c ∷ buffer)) (echo_print-do_cat fd [] h.1)
echo_print-do_cat (got (c ∷ buffer) ∷ fd) (full ∷ ws) h =
    ap (before (c ∷ buffer)) (echo_print-do_cat fd ws h.1)
echo_print-do_cat (got (c ∷ buffer) ∷ fd) (short k ∷ ws) h =
    ap (before (take k (c ∷ buffer))) (echo_print-do_cat fd ws h.1)
echo_print-do_cat (got (c ∷ buffer) ∷ fd) (failed ∷ ws) h = refl
