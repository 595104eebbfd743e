-- ===== src/Examples/Transfer.antt =====
-- A transfer of 200 bytes in two pieces, on a terminal.
use epochfill.Common.{ℕ, ◌≡◌, ◌≤◌, Bool, true, false, some, List, [], ◌∷◌, All, arith}
use epochfill.Go.Text.{bytes_of}
use epochfill.Progress.{Bar, new_bar, transfer}
use epochfill.Progress.Printed.{Fine, lines, Rising, transfer-Fine}

abbrev calls : List (ℕ × Bool)
calls = (100, true) ∷ ((200, false) ∷ [])

rising : Rising 0 calls
rising = (omega arith, omega arith, (omega arith, omega arith, tt))

transfer-Fine_example :
    (after : Bar) × (transfer calls (new_bar true (bytes_of "gsfa index") 200) ≡ some after)
    × All Fine after.printed
    × (lines after.printed ≤ 100)
transfer-Fine_example = transfer-Fine 200 (omega arith) true (bytes_of "gsfa index") calls rising
