-- ===== src/Strings/Compare.antt =====
-- `_strcmp` decides the equality of texts, and `_strcpy` copies a prefix.
use tpe2_so.Base.{
  ℕ, zero, suc, ◌+◌, ◌^◌, ◌≤◌, ◌<◌, ◌≡◌, ◌≢◌, ◌↔◌, refl, ◌∙◌, inl, inr, some, arith, ltb,
  if◌then◌else◌, add64, update, update_self, update_ne, ==-cases, ne→==,
}
use tpe2_so.Strings.{Text, strcpy, strlen, strcmp, char_int, int_sub}

-- A text of `n` bytes ends at the first zero.
pub record IsText (s : Text) (n : ℕ) : Type 0 where
  pub within : (i : ℕ) → i < n → s i ≢ 0
  pub end : s n ≡ 0

-- The texts agree up to and with the end of the first.
abbrev pub Same : Text → Text → ℕ → Type 0
Same a b n = (i : ℕ) → i ≤ n → a i ≡ b i

pub strcmp-ne : (a b : ℕ) → a < 256 → b < 256 → a ≢ b → int_sub (char_int a) (char_int b) ≢ 0
strcmp-ne a b ha hb ne = ground arith

strcmp_from :
    (fuel i n : ℕ) (a b : Text)
    → IsText a n
    → ((j : ℕ) → (a j < 256) × (b j < 256))
    → i ≤ n
    → n < fuel + i
    → ((j : ℕ) → j < i → a j ≡ b j)
    → (r : ℕ) × (strcmp fuel a b i ≡ some r) × ((r ≡ 0) ↔ Same a b n)
unfolding strcmp
strcmp_from zero i n a b t hb le lt same = absurd (omega arith)
strcmp_from (suc fuel) i n a b t hb le lt same = elim (==-cases (a i) (b i)) [
  | inr ne ↦ (
    int_sub (char_int (a i)) (char_int (b i)),
    ground arith,
    ((λ z. absurd (strcmp-ne (a i) (b i) (hb i).0 (hb i).1 ne z)), λ all. absurd (ne (all i le))),
  )
  | inl eq ↦ elim (==-cases i n) [
    | inl stop ↦ (
      0,
      (let z : a i ≡ 0 = rw stop t.end in ground arith),
      (
        (λ e j h. elim (==-cases j i) [ inl s ↦ rw s eq | inr ns ↦ same j (omega arith) ]),
        λ all. refl,
      ),
    )
    | inr on ↦
        let (r, e, iff) =
          strcmp_from fuel (i + 1) n a b t hb (omega arith) (omega arith)
            (λ j h. elim (==-cases j i) [ inl s ↦ rw s eq | inr ns ↦ same j (omega arith) ]) in
        (r, (let nz = t.within i (omega arith) in ground (arith, e)), iff)
  ]
]

-- For two texts, of which the first has fewer bytes than there is fuel: `_strcmp` returns, and it
-- returns 0 exactly when they are equal up to and with the zero that ends the first.
pub strcmp-Same :
    (fuel n : ℕ) (a b : Text)
    → IsText a n
    → ((j : ℕ) → (a j < 256) × (b j < 256))
    → n < fuel
    → (r : ℕ) × (strcmp fuel a b 0 ≡ some r) × ((r ≡ 0) ↔ Same a b n)
strcmp-Same fuel n a b t hb lt =
    strcmp_from fuel 0 n a b t hb (omega arith) (omega arith) (λ j h. absurd (omega arith))

-- What `_strcpy` leaves, from offset `i` to the end `k` of the copy.
record Copied (dest src t : Text) (i k : ℕ) : Type 0 where
  before : (j : ℕ) → j < i → t j ≡ dest j
  copy : (j : ℕ) → i ≤ j → j < k → t j ≡ src j
  end : t k ≡ 0
  behind : (j : ℕ) → k < j → t j ≡ dest j

abbrev pub stop_at : ℕ → ℕ → ℕ
stop_at n m = if ltb n m then n else m

strcpy_from :
    (m i n : ℕ) (dest src : Text)
    → IsText src n
    → i ≤ n
    → Copied dest src (strcpy m dest src i) i (stop_at n (i + m))
unfolding strcpy
strcpy_from zero i n dest src t le =
    let k : stop_at n (i + 0) ≡ i = ground arith in
    rw k (record {
      before = λ j h. update_ne dest i 0 j (omega arith);
      copy = λ j a b. absurd (omega arith);
      end = update_self dest i 0;
      behind = λ j h. update_ne dest i 0 j (omega arith);
    })
strcpy_from (suc m) i n dest src t le = elim (==-cases i n) [
  | inl stop ↦
      let z : src i ≡ 0 = rw stop t.end in
      let k : stop_at n (i + suc m) ≡ i = ground arith in
      rw (k, z)
        (record {
          before = λ j h. update_ne dest i 0 j (omega arith);
          copy = λ j a b. absurd (omega arith);
          end = update_self dest i 0;
          behind = λ j h. update_ne dest i 0 j (omega arith);
        })
  | inr on ↦
      let dest' : Text = update dest i (src i) in
      let c = strcpy_from m (i + 1) n dest' src t (omega arith) in
      let k : stop_at n (i + suc m) ≡ stop_at n (i + 1 + m) = ground arith in
      let far : i + 1 ≤ stop_at n (i + 1 + m) = ground arith in
      rw (k, ne→== (src i) 0 (t.within i (omega arith)))
        (record {
          before = λ j h. c.before j (omega arith) ∙ update_ne dest i (src i) j (omega arith);
          copy = λ j a b. elim (==-cases j i) [
            | inl e ↦ rw e (c.before i (omega arith) ∙ update_self dest i (src i))
            | inr ne ↦ c.copy j (omega arith) b
          ];
          end = c.end;
          behind = λ j h. c.behind j h ∙ update_ne dest i (src i) j (omega (arith, far, h));
        })
]

strlen_from :
    (fuel i n : ℕ) (s : Text)
    → IsText s n
    → i ≤ n
    → n < fuel + i
    → n < 2 ^ 64
    → strlen fuel s i ≡ some n
unfolding strlen
strlen_from zero i n s t le lt small = absurd (omega arith)
strlen_from (suc fuel) i n s t le lt small = elim (==-cases i n) [
  | inl stop ↦ rw (stop, t.end) refl
  | inr on ↦
      let next : add64 i 1 ≡ i + 1 = omega arith in
      rw (ne→== (s i) 0 (t.within i (omega arith)), next)
        (strlen_from fuel (i + 1) n s t (omega arith) (omega arith) small)
]

-- A text of `n` bytes, of which `_strcpy` may copy `m`: the copy has the smaller number of bytes,
-- which `_strlen` finds; they are those of the text, and nothing behind its end is written.
strcpy-strlen :
    (m n fuel : ℕ) (dest src : Text)
    → IsText src n
    → n < fuel
    → n < 2 ^ 64
    → (strlen fuel (strcpy m dest src 0) 0 ≡ some (stop_at n m))
      × ((j : ℕ) → j < stop_at n m → strcpy m dest src 0 j ≡ src j)
      × ((j : ℕ) → stop_at n m < j → strcpy m dest src 0 j ≡ dest j)
strcpy-strlen m n fuel dest src t lt small =
    let from_start : 0 + m ≡ m = omega arith in
    let c = rw from_start at (strcpy_from m 0 n dest src t (omega arith)) in
    let k : ℕ = stop_at n m in
    let shorter : k ≤ n = ground arith in
    let copied : IsText (strcpy m dest src 0) k = record {
      within = λ i h. rw (c.copy i (omega arith) h) (t.within i (omega (arith, shorter)));
      end = c.end;
    } in
    (
      strlen_from fuel 0 k (strcpy m dest src 0) copied (omega arith) (omega (arith, shorter))
          (omega (arith, shorter)),
      λ j h. c.copy j (omega arith) h,
      c.behind,
    )
