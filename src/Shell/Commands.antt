-- ===== src/Shell/Commands.antt =====
-- The table `cmds` of Userland/SampleCodeModule/include/commands.h; the addresses of the functions are
-- an argument, by their place in the table.
use tpe2_so.Base.{ℕ, List, [], ◌∷◌}
use tpe2_so.Shell.{Command}

abbrev pub cmds : (ℕ → ℕ) → List Command
cmds address =
    record { name = (b'h' ∷ b'e' ∷ b'l' ∷ b'p' ∷ []); handler = address 0 }
    ∷ record {
      name = (b'd' ∷ b'i' ∷ b'v' ∷ b'b' ∷ b'y' ∷ b'z' ∷ b'e' ∷ b'r' ∷ b'o' ∷ []);
      handler = address 1;
    }
    ∷ record {
      name =
          (b'i' ∷ b'n' ∷ b'v' ∷ b'a' ∷ b'l' ∷ b'i' ∷ b'd' ∷ b'o' ∷ b'p' ∷ b'c' ∷ b'o' ∷ b'd' ∷ b'e'
            ∷ []);
      handler = address 2;
    }
    ∷ record { name = (b'i' ∷ b'n' ∷ b'f' ∷ b'o' ∷ b'r' ∷ b'e' ∷ b'g' ∷ []); handler = address 3 }
    ∷ record { name = (b't' ∷ b'i' ∷ b'm' ∷ b'e' ∷ []); handler = address 4 }
    ∷ record {
      name =
          (b'c' ∷ b'h' ∷ b'a' ∷ b'n' ∷ b'g' ∷ b'e' ∷ b'f' ∷ b'o' ∷ b'n' ∷ b't' ∷ b's' ∷ b'i' ∷ b'z'
            ∷ b'e' ∷ []);
      handler = address 5;
    }
    ∷ record { name = (b'c' ∷ b'l' ∷ b'e' ∷ b'a' ∷ b'r' ∷ []); handler = address 6 }
    ∷ record { name = (b'm' ∷ b'e' ∷ b'm' ∷ []); handler = address 7 }
    ∷ record { name = (b'k' ∷ b'i' ∷ b'l' ∷ b'l' ∷ []); handler = address 8 }
    ∷ record { name = (b'l' ∷ b'o' ∷ b'o' ∷ b'p' ∷ []); handler = address 9 }
    ∷ record { name = (b'n' ∷ b'i' ∷ b'c' ∷ b'e' ∷ []); handler = address 10 }
    ∷ record { name = (b'b' ∷ b'l' ∷ b'o' ∷ b'c' ∷ b'k' ∷ []); handler = address 11 }
    ∷ record { name = (b'c' ∷ b'a' ∷ b't' ∷ []); handler = address 12 }
    ∷ record { name = (b'w' ∷ b'c' ∷ []); handler = address 13 }
    ∷ record { name = (b'f' ∷ b'i' ∷ b'l' ∷ b't' ∷ b'e' ∷ b'r' ∷ []); handler = address 14 }
    ∷ record { name = (b'p' ∷ b's' ∷ []); handler = address 15 }
    ∷ record { name = (b'p' ∷ b'h' ∷ b'y' ∷ b'l' ∷ b'o' ∷ []); handler = address 16 }
    ∷ record { name = (b't' ∷ b'e' ∷ b's' ∷ b't' ∷ b'_' ∷ b'm' ∷ b'm' ∷ []); handler = address 17 }
    ∷ record {
      name = (b't' ∷ b'e' ∷ b's' ∷ b't' ∷ b'_' ∷ b'p' ∷ b'r' ∷ b'i' ∷ b'o' ∷ []);
      handler = address 18;
    }
    ∷ record {
      name =
          (b't' ∷ b'e' ∷ b's' ∷ b't' ∷ b'_' ∷ b'p' ∷ b'r' ∷ b'o' ∷ b'c' ∷ b'e' ∷ b's' ∷ b's' ∷ b'e'
            ∷ b's' ∷ []);
      handler = address 19;
    }
    ∷ record {
      name = (b't' ∷ b'e' ∷ b's' ∷ b't' ∷ b'_' ∷ b's' ∷ b'y' ∷ b'n' ∷ b'c' ∷ []);
      handler = address 20;
    }
    ∷ []
