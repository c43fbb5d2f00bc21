-- ===== src/Tee/Tests.antt =====
-- linux/tee01/main.c on four bytes of input.
use c_study.Base.{◌≡◌, refl, [], ◌∷◌, false, some}
use c_study.Tee.Loop.{Bytes, failed, moved, again, copied, Pipes, splice_loop, main_loop, tee_main}

abbrev abcd : Pipes
abcd = record { input = b'a' ∷ b'b' ∷ b'c' ∷ b'd' ∷ []; output = []; file = [] }

abbrev all : Bytes
all = b'a' ∷ b'b' ∷ b'c' ∷ b'd' ∷ []

pieces_run :
    main_loop
      (copied 3 (moved 1 ∷ moved 2 ∷ []) ∷ again ∷ copied 1 (moved 1 ∷ []) ∷ copied 0 [] ∷ [])
      abcd
    ≡ some (record { status = 0; pipes = record { input = []; output = all; file = all } })
unfolding splice_loop main_loop
pieces_run = refl

-- After a failed splice the same bytes go to standard output once more, and the status is 0 all the same.
failed_splice_runs :
    main_loop (copied 2 (failed ∷ []) ∷ copied 4 (moved 4 ∷ []) ∷ copied 0 [] ∷ []) abcd
    ≡ some (record {
      status = 0;
      pipes = record { input = []; output = b'a' ∷ b'b' ∷ all; file = all };
    })
unfolding splice_loop main_loop
failed_splice_runs = refl

no_file_runs :
    tee_main (some all) (λ path. false) (copied 4 [] ∷ []) all
    ≡ some (record { status = 1; pipes = record abcd { input = all } })
unfolding tee_main
no_file_runs = refl
