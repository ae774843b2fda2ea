-- ===== src/Strings.antt =====
-- Userland/SampleCodeModule/stringUtil.c. A `char *` is the memory behind it, a function of the
-- offset; the bytes are numbers below 256. A loop that ends at a byte of the text runs on fuel, and
-- `none` means that the fuel ran out.
pub mod Decimal
pub mod Compare
pub mod Equal
mod Tests
use tpe2_so.Base.{
  ℕ, zero, suc, ◌+◌, ◌-◌, ◌*◌, ◌/◌, ◌%◌, ◌^◌, Bool, true, false, not, ◌&&◌, ◌||◌, Option, none,
  some, ltb, leb, ◌==◌, if◌then◌else◌, add32, add64, update, ◌>>=◌,
}

abbrev pub Text : Type 0
Text = ℕ → ℕ

-- `S[i] && (S[i] >= '0' && S[i] <= '9')`.
abbrev pub is_digit : ℕ → Bool
is_digit c = not (c == 0) && (leb b'0' c && leb c b'9')

-- The loop of `atoi` from offset `i` on.
pub atoi_loop : ℕ → Text → ℕ → ℕ → Option ℕ
atoi_loop zero s i num = none
atoi_loop (suc fuel) s i num =
    let rest = atoi_loop fuel s (i + 1) ((num * 10 + (s i - b'0')) % 2 ^ 64) in
    if is_digit (s i) then rest else some num

pub atoi : ℕ → Text → Option ℕ
atoi fuel s = atoi_loop fuel s 0 0

-- The `int` that a `uint64_t` is converted to, without its sign: the loop only divides it.
abbrev pub int_size : ℕ → ℕ
int_size x = let y : ℕ = x % 2 ^ 32 in if ltb y (2 ^ 31) then y else 2 ^ 32 - y

-- The loop of `itoa` that counts the digits.
pub count_digits : ℕ → ℕ → ℕ → Option ℕ
count_digits zero n digits = none
count_digits (suc fuel) n digits =
    let rest = count_digits fuel (n / 10) (digits + 1) in if n == 0 then some digits else rest

-- The loop of `itoa` that writes them, the last one first.
pub write_digits : ℕ → ℕ → Text → Text
write_digits zero number s = s
write_digits (suc i) number s =
    write_digits i (number / 10) (update s i ((number % 10 + b'0') % 2 ^ 8))

-- `itoa`: the result and the memory. 32 rounds are enough to count the digits of an `int`.
pub itoa : ℕ → Text → Option (ℕ × Text)
itoa number s = do
  digits ← count_digits 32 (int_size (number / 10)) 1
  let short : Text = update (update (update s 0 b'0') 1 ((number + b'0') % 2 ^ 8)) 2 0
  some (
      if digits == 1
      then (digits, short)
      else (digits, write_digits digits number (update s digits 0)))

-- `_strcpy`, from offset `i` of both on, with `n` bytes left to copy.
pub strcpy : ℕ → Text → Text → ℕ → Text
strcpy zero dest src i = update dest i 0
strcpy (suc n) dest src i =
    let rest = strcpy n (update dest i (src i)) src (i + 1) in
    if src i == 0 then update dest i 0 else rest

pub strlen : ℕ → Text → ℕ → Option ℕ
strlen zero str ans = none
strlen (suc fuel) str ans =
    let rest = strlen fuel str (add64 ans 1) in if str ans == 0 then some ans else rest

-- A `char`, which is signed, as a 32-bit `int`.
abbrev pub char_int : ℕ → ℕ
char_int c = if ltb c 128 then c else c + 2 ^ 32 - 256

abbrev pub int_sub : ℕ → ℕ → ℕ
int_sub a b = (a + 2 ^ 32 - b) % 2 ^ 32

pub strcmp : ℕ → Text → Text → ℕ → Option ℕ
strcmp zero str1 str2 i = none
strcmp (suc fuel) str1 str2 i =
    let rest = strcmp fuel str1 str2 (i + 1) in
    let a : ℕ = str1 i in
    let b : ℕ = str2 i in
    if (not (a == 0) && not (b == 0)) && a == b
    then rest
    else some (if a == b then 0 else int_sub (char_int a) (char_int b))

pub to_upper : ℕ → ℕ
to_upper c = if leb b'a' c && leb c b'z' then c - b'a' + b'A' else c

-- The digit of `uintToBase`.
pub base_digit : ℕ → ℕ
base_digit remainder = if ltb remainder 10 then remainder + b'0' else remainder + b'A' - 10

-- The first loop of `uintToBase`: the digits, the last one first; `p` is the next offset.
pub put_digits : ℕ → ℕ → ℕ → ℕ → Text → Option (ℕ × Text)
put_digits zero value base p s = none
put_digits (suc fuel) value base p s =
    let s' : Text = update s p (base_digit (value % base)) in
    let rest = put_digits fuel (value / base) base (p + 1) s' in
    if value / base == 0 then some (p + 1, s') else rest

-- The second loop, which swaps the bytes between the offsets `p1` and `p2` pairwise.
pub swap_ends : ℕ → ℕ → ℕ → Text → Text
swap_ends zero p1 p2 s = s
swap_ends (suc rounds) p1 p2 s =
    let rest = swap_ends rounds (p1 + 1) (p2 - 1) (update (update s p1 (s p2)) p2 (s p1)) in
    if ltb p1 p2 then rest else s

-- `uintToBase`: the number of digits and the memory. 32 rounds are enough for a `uint32_t`.
pub uint_to_base : ℕ → Text → ℕ → Option (ℕ × Text)
uint_to_base value s base = do
  (p, t) ← put_digits 32 value base 0 s
  some (p, swap_ends p 0 (p - 1) (update t p 0))
