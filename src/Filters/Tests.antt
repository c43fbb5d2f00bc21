-- ===== src/Filters/Tests.antt =====
-- The filters of futuu_no_linux_programming on small files.
use c_study.Filters.Mains.{Source, after_close, cat_arguments, cat_main}
use c_study.Base.{
  All, true, false, ◌<◌, ◌≡◌, refl, List, [], ◌∷◌, ◌++◌, ◌⊎◌, some, none, arith, ◌≤◌,
}
use c_study.Base.Int.{pos}
use c_study.Filters.Input.{Bytes, newline, Read, eintr, failure, got}
use c_study.Filters.Wc.{do_wc}
use c_study.Filters.Cat.{do_cat}
use c_study.Filters.Escape.{escape, unescape, tab, IsPlain, unescape-escape}
use c_study.Filters.Tail.{tail1, print_lines}
use c_study.Filters.Ring.{IsLine, text_of}
use c_study.Filters.LastLines.{tail1_lem}
use c_study.Filters.Head.{do_head}
use c_study.Filters.Head.{head_files}
use c_study.Filters.EchoPrint.{echo_print}
use c_study.Filters.HeadMain.{head1, head2}

abbrev two_lines : Bytes
two_lines = b'a' ∷ newline ∷ b'b' ∷ newline ∷ []

-- The same two lines, cut by reads of which one is interrupted.
abbrev pieces : List Read
pieces = got (b'a' ∷ []) ∷ eintr ∷ got (newline ∷ b'b' ∷ newline ∷ []) ∷ []

pieces_runs : do_wc (failure ∷ pieces) 0 ≡ 2
unfolding do_wc
pieces_runs = refl

escape_runs : escape (b'a' ∷ tab ∷ newline ∷ []) ≡ b'a' ∷ 92 ∷ b't' ∷ b'$' ∷ newline ∷ []
unfolding escape
escape_runs = refl

IsPlain-two_lines : All IsPlain (tab ∷ two_lines)
IsPlain-two_lines = ground arith

IsLine-a : IsLine (b'a' ∷ [])
IsLine-a = record {
  plain = ((λ e. ground arith), tt);
  whole = ((λ e. omega arith), tt);
  short = omega arith;
}

-- A file of one line; the buffers hold a dot before they are written.
tail1_lem_example :
    ((10 ≤ 1)
      × (tail1 (λ j. b'.' ∷ []) (text_of ((b'a' ∷ []) ∷ []) ++ [])
          ≡ some (text_of ((b'a' ∷ []) ∷ []) ++ [])))
    ⊎ ((1 < 10)
        × (tail1 (λ j. b'.' ∷ []) (text_of ((b'a' ∷ []) ∷ []) ++ [])
            ≡ some (text_of ((b'a' ∷ []) ∷ []) ++ ([] ++ print_lines 8 (λ j. b'.' ∷ []) 2))))
tail1_lem_example =
    tail1_lem (λ j. b'.' ∷ []) ((b'a' ∷ []) ∷ []) [] (IsLine-a, tt) tt tt (omega arith)
      (omega arith)

unescape-escape_example : unescape (escape (tab ∷ two_lines)) ≡ tab ∷ two_lines
unescape-escape_example = unescape-escape (tab ∷ two_lines) IsPlain-two_lines

-- With a number and no file, head2 writes nothing.
head2_runs :
    head2 (λ t. pos 1) (λ n. none) ((b'1' ∷ []) ∷ []) two_lines ≡ record { out = []; status = 0 }
unfolding head2 head_files
head2_runs = refl

-- head1 takes the first line of the standard input.
head1_runs :
    head1 (λ t. pos 1) ((b'1' ∷ []) ∷ []) two_lines
    ≡ record { out = b'a' ∷ newline ∷ []; status = 0 }
unfolding head1 do_head
head1_runs = refl

-- An interrupted read ends echo_print.
echo_print_runs : echo_print pieces [] ≡ record { out = b'a' ∷ []; exited = true }
unfolding echo_print
echo_print_runs = refl

-- A file whose `close` fails, so that the second one is not copied.
abbrev unclosed : Source
unclosed = record { fd = got (1 ∷ 2 ∷ []) ∷ []; writes = []; closes = false }

unclosed_runs :
    cat_main unclosed (some unclosed ∷ some unclosed ∷ [])
    ≡ record { out = 1 ∷ 2 ∷ []; exited = true }
unfolding cat_main cat_arguments after_close do_cat
unclosed_runs = refl
