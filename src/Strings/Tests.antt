-- ===== src/Strings/Tests.antt =====
-- The string functions at concrete texts.
use tpe2_so.Base.{ℕ, ◌≡◌, ◌↔◌, refl, some, arith, ◌==◌, if◌then◌else◌}
use tpe2_so.Strings.{Text, atoi, itoa, strcmp}
use tpe2_so.Strings.Decimal.{itoa-atoi}
use tpe2_so.Strings.Compare.{IsText, Same, strcmp-Same}

abbrev blank : Text
blank i = 0

-- "ls" and "l".
abbrev two_bytes : Text
two_bytes i = if i == 0 then 108 else (if i == 1 then 115 else 0)

abbrev one_byte : Text
one_byte i = if i == 0 then 108 else 0

two_bytes-IsText : IsText two_bytes 2
two_bytes-IsText = record { within = λ i h. ground arith; end = refl }

itoa-atoi_example : (k : ℕ) × (t : Text) × (itoa 4096 blank ≡ some (k, t)) × (atoi 33 t ≡ some 4096)
itoa-atoi_example = itoa-atoi 4096 blank (omega arith)

strcmp-Same_example :
    (r : ℕ) × (strcmp 3 two_bytes one_byte 0 ≡ some r) × ((r ≡ 0) ↔ Same two_bytes one_byte 2)
strcmp-Same_example =
    strcmp-Same 3 2 two_bytes one_byte two_bytes-IsText (λ j. (ground arith, ground arith))
      (omega arith)
