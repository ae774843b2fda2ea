-- ===== src/Keyboard/Tests.antt =====
-- The keyboard driver at concrete scancodes.
use tpe2_so.Base.{ℕ, ◌≡◌, refl, false, List, [], ◌∷◌, ◌++◌, arith}
use tpe2_so.Keyboard.{Keyboard, read_ascii}
use tpe2_so.Keyboard.Queue.{IsValid, waiting, typed, keys_down, typed-waiting}
use tpe2_so.Keyboard.Reading.{ReadsAscii, read_ascii-ReadsAscii}

abbrev idle : Keyboard
idle = record {
  key_state = λ k. false;
  keys_to_read = 0;
  is_special_key = false;
  blocked_pid = 0;
  buffer = λ i. 0;
  read_idx = 4095;
  write_idx = 4095;
}

abbrev one_key : Keyboard
one_key = record idle { keys_to_read = 1; write_idx = 0; buffer = λ i. 46 }

idle-IsValid : IsValid idle
idle-IsValid = record {
  read_in = omega arith;
  write_in = omega arith;
  fits = omega arith;
  apart = omega arith;
}

one_key-IsValid : IsValid one_key
one_key-IsValid = record {
  read_in = omega arith;
  write_in = omega arith;
  fits = omega arith;
  apart = omega arith;
}

-- The key of the letter a goes down, then the up arrow, then the first comes up.
abbrev codes : List ℕ
codes = 30 ∷ 224 ∷ 72 ∷ 158 ∷ []

codes_keys : keys_down false codes ≡ 46 ∷ 84 ∷ []
unfolding keys_down
codes_keys = refl

typed-waiting_example :
    IsValid (typed codes idle)
    × (waiting (typed codes idle) ≡ waiting idle ++ keys_down false codes)
typed-waiting_example = typed-waiting codes idle idle-IsValid (omega arith)

read_ascii-ReadsAscii_example : ReadsAscii 3 one_key (read_ascii 2 3 one_key)
read_ascii-ReadsAscii_example = read_ascii-ReadsAscii 2 3 one_key one_key-IsValid (omega arith)
