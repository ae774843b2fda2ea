-- ===== src/Strings/Decimal.antt =====
-- `itoa` and `atoi` against one another.
use tpe2_so.Base.{
  ℕ, zero, suc, ◌+◌, ◌-◌, ◌*◌, ◌/◌, ◌%◌, ◌^◌, ◌≤◌, ◌<◌, ◌≡◌, refl, ap, sym, ◌∙◌, inl, inr, true,
  some, arith, update, update_self, update_ne, ==-cases, ne→==,
}
use tpe2_so.Strings.{Text, is_digit, atoi_loop, atoi, int_size, count_digits, write_digits, itoa}

-- A number fits in so many decimal digits.
abbrev Fits : ℕ → ℕ → Type 0
Fits zero n = n ≡ 0
Fits (suc d) n = Fits d (n / 10)

-- The first `k` bytes, read as a number.
abbrev value : Text → ℕ → ℕ
value s zero = 0
value s (suc k) = value s k * 10 + (s k - b'0')

-- A power of two, by recursion on the exponent.
abbrev double : ℕ → ℕ
double zero = 1
double (suc f) = 2 * double f

count_digits-Fits :
    (f m d : ℕ)
    → m < double f
    → (r : ℕ) × (count_digits (suc f) m d ≡ some (d + r)) × Fits r m × (r ≤ f)
unfolding count_digits
count_digits-Fits zero m d h = (0, ground arith, omega arith, omega arith)
count_digits-Fits (suc f) m d h = elim (==-cases m 0) [
  | inl z ↦ (0, ground (arith, z), z, omega arith)
  | inr nz ↦
      let (r, e, fits, small) = count_digits-Fits f (m / 10) (d + 1) (omega arith) in
      (suc r, rw (ne→== m 0 nz) (e ∙ ap some (omega arith)), fits, omega arith)
]

write_digits_above : (d n : ℕ) (s : Text) (i : ℕ) → d ≤ i → write_digits d n s i ≡ s i
unfolding write_digits
write_digits_above zero n s i h = refl
write_digits_above (suc d) n s i h =
    write_digits_above d (n / 10) _ i (omega arith) ∙ update_ne s d _ i (omega arith)

write_digits_digit : (d n : ℕ) (s : Text) (i : ℕ) → i < d → is_digit (write_digits d n s i) ≡ true
unfolding write_digits
write_digits_digit zero n s i h = absurd (omega arith)
write_digits_digit (suc d) n s i h = elim (==-cases i d) [
  | inl e ↦
      rw (e, write_digits_above d (n / 10) (update s d ((n % 10 + b'0') % 2 ^ 8)) d (omega arith))
        (ground arith)
  | inr ne ↦ write_digits_digit d (n / 10) _ i (omega arith)
]

value-write_digits : (d n : ℕ) (s : Text) → Fits d n → value (write_digits d n s) d ≡ n
unfolding write_digits
value-write_digits zero n s h = sym h
value-write_digits (suc d) n s h =
    let s' : Text = update s d ((n % 10 + b'0') % 2 ^ 8) in
    rw (value-write_digits d (n / 10) s' h, write_digits_above d (n / 10) s' d (omega arith))
      (ground arith)

value-le : (s : Text) (j i d : ℕ) → i + j ≡ d → value s i ≤ value s d
value-le s zero i d e = let same : i ≡ d = omega arith in rw same (omega arith)
value-le s (suc j) i d e = omega (arith, value-le s j (suc i) d (omega arith))

-- The loop of `atoi` over the digits up to offset `d`, where a byte that is no digit ends it.
atoi_loop-value :
    (f d i : ℕ) (s : Text)
    → i ≤ d
    → d < f + i
    → ((j : ℕ) → j < d → is_digit (s j) ≡ true)
    → s d ≡ 0
    → value s d < 2 ^ 64
    → atoi_loop f s i (value s i) ≡ some (value s d)
unfolding atoi_loop
atoi_loop-value zero d i s le lt digits end small = absurd (omega arith)
atoi_loop-value (suc f) d i s le lt digits end small = elim (==-cases i d) [
  | inl e ↦ rw (e, end) refl
  | inr ne ↦
      let next : i + 1 ≡ suc i = omega arith in
      let fits : (value s i * 10 + (s i - b'0')) % 2 ^ 64 ≡ value s (suc i) =
        omega (arith, small, value-le s (d - suc i) (suc i) d (omega arith)) in
      rw (digits i (omega arith), fits, next)
        (atoi_loop-value f d (suc i) s (omega arith) (omega arith) digits end small)
]

-- What `itoa` leaves: so many digits that stand for the number, and a zero behind them.
record Printed (n d : ℕ) (s : Text) : Type 0 where
  digits : (j : ℕ) → j < d → is_digit (s j) ≡ true
  end : s d ≡ 0
  number : value s d ≡ n

abbrev Outcome : ℕ → Text → Type 0
Outcome n s = (d : ℕ) × (k : ℕ) × (t : Text) × (itoa n s ≡ some (k, t)) × Printed n d t × (d ≤ 32)

itoa-Counted :
    (n r : ℕ) (s : Text)
    → count_digits 32 (int_size (n / 10)) 1 ≡ some (1 + r)
    → Fits r (n / 10)
    → r ≤ 31
    → Outcome n s
unfolding itoa
itoa-Counted n zero s e fits small = (
  2,
  1,
  update (update (update s 0 b'0') 1 ((n + b'0') % 2 ^ 8)) 2 0,
  rw e refl,
  record { digits = λ j hj. ground arith; end = ground arith; number = ground arith },
  omega arith,
)
itoa-Counted n (suc r) s e fits small =
    let d : ℕ = suc (suc r) in
    (
      d,
      d,
      write_digits d n (update s d 0),
      rw e (ground arith),
      record {
        digits = λ j hj. write_digits_digit d n (update s d 0) j hj;
        end = write_digits_above d n (update s d 0) d (omega arith) ∙ update_self s d 0;
        number = value-write_digits d n (update s d 0) fits;
      },
      omega arith,
    )

itoa-Printed : (n : ℕ) (s : Text) → n < 10 * 2 ^ 31 → Outcome n s
itoa-Printed n s h =
    let whole : int_size (n / 10) ≡ n / 10 = ground arith in
    let (r, e, fits, small) = count_digits-Fits 31 (n / 10) 1 (omega arith) in
    itoa-Counted n r s (ap (λ m. count_digits 32 m 1) whole ∙ e) fits small

-- A number below 10 * 2 ^ 31 that `itoa` prints is what `atoi` reads back; neither runs out of fuel.
pub itoa-atoi :
    (n : ℕ) (s : Text)
    → n < 10 * 2 ^ 31
    → (k : ℕ) × (t : Text) × (itoa n s ≡ some (k, t)) × (atoi 33 t ≡ some n)
unfolding atoi
itoa-atoi n s h =
    let (d, k, t, e, p, small) = itoa-Printed n s h in
    (
      k,
      t,
      e,
      atoi_loop-value 33 d 0 t (omega arith) (omega arith) p.digits p.end (omega (arith, p.number))
          ∙ ap some p.number,
    )
