-- ===== src/Strings/Equal.antt =====
-- `_strcmp` on texts that are known as lists of bytes.
use tpe2_so.Base.{
  ℕ, zero, suc, ◌+◌, ◌<◌, ◌≡◌, ◌≢◌, Bool, true, false, refl, inl, inr, some, List, [], ◌∷◌, arith,
  length, All, get_or, ==-cases, ne→==, ==_refl, ◌==◌, ◌∙◌, sym, ◌&&◌,
}
use tpe2_so.Strings.{Text, strcmp, char_int, int_sub}
use tpe2_so.Strings.Compare.{strcmp-ne}

-- At the pointer stands the word, and its end.
abbrev pub Reads : Text → ℕ → List ℕ → Type 0
Reads m p [] = m p ≡ 0
Reads m p (c ∷ w) = (m p ≡ c) × (c ≢ 0) × Reads m (p + 1) w

unfoldable pub same_text : List ℕ → List ℕ → Bool
same_text [] [] = true
same_text [] (d ∷ v) = false
same_text (c ∷ w) [] = false
same_text (c ∷ w) (d ∷ v) = (c == d) && same_text w v

abbrev pub Bytes : List ℕ → Type 0
Bytes w = All (λ c. c < 256) w

strcmp-differs :
    (fuel : ℕ) (a b : Text) (i x y : ℕ)
    → a i ≡ x
    → b i ≡ y
    → x ≢ y
    → strcmp (suc fuel) a b i ≡ some (int_sub (char_int x) (char_int y))
unfolding strcmp
strcmp-differs fuel a b i x y ea eb ne = rw (ea, eb, ne→== x y ne) (ground arith)

strcmp-end : (fuel : ℕ) (a b : Text) (i : ℕ) → a i ≡ 0 → b i ≡ 0 → strcmp (suc fuel) a b i ≡ some 0
unfolding strcmp
strcmp-end fuel a b i ea eb = rw (ea, eb) refl

strcmp-next :
    (fuel : ℕ) (a b : Text) (i x : ℕ)
    → a i ≡ x
    → b i ≡ x
    → x ≢ 0
    → strcmp (suc fuel) a b i ≡ strcmp fuel a b (i + 1)
unfolding strcmp
strcmp-next fuel a b i x ea eb nz = rw (ea, eb, ne→== x 0 nz, ==_refl x) refl

-- `_strcmp` returns, and 0 exactly on equal texts, where the fuel is more than the first has bytes.
pub strcmp-same_text :
    (fuel : ℕ) (a b : Text) (i : ℕ) (w v : List ℕ)
    → Reads a i w
    → Reads b i v
    → Bytes w
    → Bytes v
    → length w < fuel
    → (r : ℕ) × (strcmp fuel a b i ≡ some r) × ((r == 0) ≡ same_text w v)
unfolding same_text
strcmp-same_text zero a b i w v ra rb ba bb h = absurd (omega arith)
strcmp-same_text (suc fuel) a b i [] [] ea eb ba bb h = (0, strcmp-end fuel a b i ea eb, refl)
strcmp-same_text (suc fuel) a b i [] (d ∷ v) ea (eb, nz, rb) ba (lt, bb) h =
    let ne : 0 ≢ d = λ e. nz (sym e) in
    (
      int_sub (char_int 0) (char_int d),
      strcmp-differs fuel a b i 0 d ea eb ne,
      ne→== (int_sub (char_int 0) (char_int d)) 0 (strcmp-ne 0 d (omega arith) lt ne),
    )
strcmp-same_text (suc fuel) a b i (c ∷ w) [] (ea, nz, ra) eb (lt, ba) bb h = (
  int_sub (char_int c) (char_int 0),
  strcmp-differs fuel a b i c 0 ea eb nz,
  ne→== (int_sub (char_int c) (char_int 0)) 0 (strcmp-ne c 0 lt (omega arith) nz),
)
strcmp-same_text (suc fuel) a b i (c ∷ w) (d ∷ v) (ea, na, ra) (eb, nb, rb) (la, ba) (lb, bb) h =
    elim (==-cases c d) [
      | inl e ↦
          let (r, run, iff) = strcmp-same_text fuel a b (i + 1) w v ra rb ba bb (omega arith) in
          let eb' : b i ≡ c = eb ∙ sym e in
          let here : (c == d) ≡ true = rw e (==_refl d) in
          (r, strcmp-next fuel a b i c ea eb' na ∙ run, rw here iff)
      | inr ne ↦ (
        int_sub (char_int c) (char_int d),
        strcmp-differs fuel a b i c d ea eb ne,
        rw (ne→== c d ne) (ne→== (int_sub (char_int c) (char_int d)) 0 (strcmp-ne c d la lb ne)),
      )
    ]

-- A pointer into a memory, as a text of its own.
pub Reads-shift : (m : Text) (p i : ℕ) (w : List ℕ) → Reads m (p + i) w → Reads (λ j. m (p + j)) i w
Reads-shift m p i [] e = e
Reads-shift m p i (c ∷ w) (e, nz, r) =
    let assoc : p + i + 1 ≡ p + (i + 1) = omega arith in
    (e, nz, Reads-shift m p (i + 1) w (rw assoc at r))

get_or-next : (c : ℕ) (v : List ℕ) (i : ℕ) → get_or (c ∷ v) (i + 1) 0 ≡ get_or v i 0
get_or-next c v i = ground arith

Reads-tail :
    (c : ℕ) (v : List ℕ) (i : ℕ) (w : List ℕ)
    → Reads (λ j. get_or v j 0) i w
    → Reads (λ j. get_or (c ∷ v) j 0) (i + 1) w
Reads-tail c v i [] e = get_or-next c v i ∙ e
Reads-tail c v i (d ∷ w) (e, nz, r) = (get_or-next c v i ∙ e, nz, Reads-tail c v (i + 1) w r)

-- A literal reads as what was written.
pub Reads-literal : (v : List ℕ) → All (λ c. c ≢ 0) v → Reads (λ j. get_or v j 0) 0 v
Reads-literal [] h = refl
Reads-literal (c ∷ v) (nz, h) = (refl, nz, Reads-tail c v 0 v (Reads-literal v h))
