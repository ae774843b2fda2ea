-- ===== src/Fd/Tests.antt =====
-- The table of open files at a concrete state.
use tpe2_so.Base.{◌≡◌, refl, [], ◌∷◌, arith, ltb, ◌==◌, if◌then◌else◌}
use tpe2_so.Pipe.{read, write}
use tpe2_so.Fd.{Table, init_fd, max_fd}
use tpe2_so.Fd.Laws.{Opened, init_fd-Opened, closed_ends, closed_ends-once}

-- Descriptor 3 is a write end with two references, and no other is in use.
abbrev table : Table
table i =
    if i == 3
    then record { ref = 2; type = write; pipe = 0x900010 }
    else record { ref = 0; type = read; pipe = 0 }

init_fd-Opened_example : Opened table read 0x900010 3 max_fd (init_fd table read 0x900010)
init_fd-Opened_example = init_fd-Opened table read 0x900010

closed_ends-once_example : closed_ends 2 table 3 ≡ (if ltb 1 2 then (0x900010, write) ∷ [] else [])
closed_ends-once_example = closed_ends-once 1 2 table 3 (omega arith) refl (omega arith)
