-- ===== src/Shell/Words.antt =====
-- `split` cuts the line at its spaces.
use mathlib.Core.Path.{subst}
use tpe2_so.Base.{
  ℕ, zero, suc, true, ◌%◌, ◌+◌, ◌-◌, ◌^◌, ◌≤◌, ◌<◌, ◌≡◌, ◌≢◌, refl, Bool, inl, inr, some, List, [],
  ◌∷◌, arith, length, All, All, update, update_self, update_ne, ==-cases, ne→==, ◌==◌, ◌∙◌,
  if◌then◌else◌, ltb,
}
use tpe2_so.Strings.{Text}
use tpe2_so.Strings.Equal.{Reads, Bytes}
use tpe2_so.Shell.{split_loop, split}

-- The entries of the array from `i` on point at the words.
abbrev pub ReadsAll : Text → (ℕ → ℕ) → ℕ → List (List ℕ) → Type 0
ReadsAll m argv i [] = Unit
ReadsAll m argv i (w ∷ ws) = Reads m (argv i) w × ReadsAll m argv (i + 1) ws

-- The first word of a line and those behind it, where at most `cuts` spaces separate words.
unfoldable pub words : ℕ → List ℕ → List ℕ × List (List ℕ)
words zero line = (line, [])
words (suc cuts) [] = ([], [])
words (suc cuts) (c ∷ line) =
    let blank : Bool = c == b' ' in
    let rest = words (if blank then cuts else suc cuts) line in
    if blank then ([], rest.0 ∷ rest.1) else (c ∷ rest.0, rest.1)

-- What `split` leaves from `i` on.
record Cut (s : Text) (i : ℕ) (buf : ℕ → ℕ) (word : ℕ) (ws : List ℕ × List (List ℕ)) (t : Text)
    (buf' : ℕ → ℕ) (last : ℕ) : Type 0 where
  before : (j : ℕ) → j < i → t j ≡ s j
  older : (j : ℕ) → j ≤ word → buf' j ≡ buf j
  first : Reads t i ws.0
  others : ReadsAll t buf' (word + 1) ws.1
  count : last ≡ word + length ws.1

split_loop-end :
    (fuel cuts : ℕ) (s : Text) (i : ℕ) (buf : ℕ → ℕ) (word : ℕ)
    → s i ≡ 0
    → split_loop (suc fuel) (word + 1 + cuts) s i buf word ≡ some (s, buf, word)
unfolding split_loop
split_loop-end fuel cuts s i buf word e = rw e refl

split_loop-full :
    (fuel : ℕ) (s : Text) (i : ℕ) (buf : ℕ → ℕ) (word : ℕ)
    → split_loop (suc fuel) (word + 1 + 0) s i buf word ≡ some (s, buf, word)
unfolding split_loop
split_loop-full fuel s i buf word = ground arith

split_loop-blank :
    (fuel cuts : ℕ) (s : Text) (i : ℕ) (buf : ℕ → ℕ) (word : ℕ)
    → s i ≡ b' '
    → split_loop (suc fuel) (word + 1 + suc cuts) s i buf word
      ≡ split_loop fuel
          (word + 1 + 1 + cuts)
          (update s i 0)
          (i + 1)
          (update buf (word + 1) (i + 1))
          (word + 1)
unfolding split_loop
split_loop-blank fuel cuts s i buf word e =
    let room : word + 1 + suc cuts ≡ word + 1 + 1 + cuts = omega arith in
    let more : ltb word (word + 1 + 1 + cuts - 1) ≡ true = ground arith in rw (room, e, more) refl

split_loop-letter :
    (fuel cuts : ℕ) (s : Text) (i : ℕ) (buf : ℕ → ℕ) (word : ℕ)
    → s i ≢ b' '
    → s i ≢ 0
    → split_loop (suc fuel) (word + 1 + suc cuts) s i buf word
      ≡ split_loop fuel (word + 1 + suc cuts) s (i + 1) buf word
unfolding split_loop
split_loop-letter fuel cuts s i buf word ne nz =
    let more : ltb word (word + 1 + suc cuts - 1) ≡ true = ground arith in
    rw (ne→== (s i) b' ' ne, ne→== (s i) 0 nz, more) refl

-- A write before the pointer does not change what is read there.
Reads-frame : (m : Text) (a v p : ℕ) (w : List ℕ) → a < p → Reads m p w → Reads (update m a v) p w
Reads-frame m a v p [] lt e = update_ne m a v p (omega arith) ∙ e
Reads-frame m a v p (c ∷ w) lt (e, nz, r) =
    (update_ne m a v p (omega arith) ∙ e, nz, Reads-frame m a v (p + 1) w (omega arith) r)

split_loop-Cut :
    (fuel cuts : ℕ) (s : Text) (i : ℕ) (buf : ℕ → ℕ) (word : ℕ) (line : List ℕ)
    → Reads s i line
    → length line < fuel
    → (t : Text) × (buf' : ℕ → ℕ) × (last : ℕ) × (split_loop fuel (word + 1 + cuts) s i buf word
        ≡ some (t, buf', last))
      × Cut s i buf word (words cuts line) t buf' last
unfolding words
split_loop-Cut zero cuts s i buf word line r h = absurd (omega arith)
split_loop-Cut (suc fuel) zero s i buf word line r h = (
  s,
  buf,
  word,
  split_loop-full fuel s i buf word,
  record {
    before = λ j lt. refl;
    older = λ j le. refl;
    first = r;
    others = tt;
    count = omega arith;
  },
)
split_loop-Cut (suc fuel) (suc cuts) s i buf word [] r h = (
  s,
  buf,
  word,
  split_loop-end fuel (suc cuts) s i buf word r,
  record {
    before = λ j lt. refl;
    older = λ j le. refl;
    first = r;
    others = tt;
    count = omega arith;
  },
)
split_loop-Cut (suc fuel) (suc cuts) s i buf word (c ∷ line) (e, nz, r) h = elim (==-cases c b' ') [
  | inl blank ↦
      let (t, buf', last, run, k) =
        split_loop-Cut fuel cuts (update s i 0) (i + 1) (update buf (word + 1) (i + 1)) (word + 1)
          line (Reads-frame s i 0 (i + 1) line (omega arith) r) (omega arith) in
      let here : buf' (word + 1) ≡ i + 1 =
        k.older (word + 1) (omega arith) ∙ update_self buf (word + 1) (i + 1) in
      (
        t,
        buf',
        last,
        split_loop-blank fuel cuts s i buf word (e ∙ blank) ∙ run,
        rw blank (record {
          before = λ j lt. k.before j (omega arith) ∙ update_ne s i 0 j (omega arith);
          older =
              λ j le. k.older j (omega arith) ∙ update_ne buf (word + 1) (i + 1) j (omega arith);
          first = k.before i (omega arith) ∙ update_self s i 0;
          others = (rw here k.first, k.others);
          count = omega (arith, k.count);
        }),
      )
  | inr letter ↦
      let (t, buf', last, run, k) =
        split_loop-Cut fuel (suc cuts) s (i + 1) buf word line r (omega arith) in
      (
        t,
        buf',
        last,
        split_loop-letter fuel cuts s i buf word (rw e letter) (rw e nz) ∙ run,
        rw (ne→== c b' ' letter) (record {
          before = λ j lt. k.before j (omega arith);
          older = k.older;
          first = (k.before i (omega arith) ∙ e, nz, k.first);
          others = k.others;
          count = k.count;
        }),
      )
]

-- The words that the array holds, the first included.
abbrev pub all_words : List ℕ × List (List ℕ) → List (List ℕ)
all_words ws = ws.0 ∷ ws.1

pub length-words : (cuts : ℕ) (line : List ℕ) → length (words cuts line).1 ≤ cuts
unfolding words
length-words zero line = omega arith
length-words (suc cuts) [] = omega arith
length-words (suc cuts) (c ∷ line) = elim (==-cases c b' ') [
  | inl blank ↦ rw blank (omega (arith, length-words cuts line))
  | inr letter ↦ rw (ne→== c b' ' letter) (length-words (suc cuts) line)
]

-- For a line with fewer bytes than there is fuel and at most 255 words asked for, `split` returns; the
-- array points at the words between the first spaces, of which the last has the rest of the line,
-- and the result is their number.
pub split-words :
    (fuel cuts : ℕ) (s : Text) (buf : ℕ → ℕ) (line : List ℕ)
    → Reads s 0 line
    → length line < fuel
    → cuts < 255
    → (t : Text) × (argv : ℕ → ℕ) × (split fuel s buf (suc cuts)
        ≡ some (t, argv, length (all_words (words cuts line))))
      × ReadsAll t argv 0 (all_words (words cuts line))
unfolding split
split-words fuel cuts s buf line r h small =
    let (t, argv, last, run, k) = split_loop-Cut fuel cuts s 0 (update buf 0 0) 0 line r h in
    let room : 0 + 1 + cuts ≡ suc cuts = omega arith in
    let start : argv 0 ≡ 0 = k.older 0 (omega arith) ∙ update_self buf 0 0 in
    let fits : (last + 1) % 2 ^ 8 ≡ suc (length (words cuts line).1) =
      omega (arith, k.count, length-words cuts line) in
    (
      t,
      argv,
      rw
          (
            subst (λ n. split_loop fuel n s 0 (update buf 0 0) 0 ≡ some (t, argv, last)) room run,
            fits,
          )
          refl,
      (rw start k.first, k.others),
    )

-- A word that `_strcmp` gets to the end of on this fuel.
abbrev pub Short : ℕ → List ℕ → Type 0
Short fuel w = (length w < fuel) × Bytes w

Short-cons : (fuel c : ℕ) (w : List ℕ) → c < 256 → Short fuel w → Short (suc fuel) (c ∷ w)
Short-cons fuel c w h (lt, b) = (omega arith, (h, b))

All-more :
    (fuel : ℕ) (ws : List (List ℕ)) → All (λ w. Short fuel w) ws → All (λ w. Short (suc fuel) w) ws
All-more fuel [] h = tt
All-more fuel (w ∷ ws) ((lt, b), h) = ((omega arith, b), All-more fuel ws h)

-- The words are no longer than the line.
pub words-Short :
    (fuel cuts : ℕ) (line : List ℕ)
    → Short fuel line
    → Short fuel (words cuts line).0 × All (λ w. Short fuel w) (words cuts line).1
unfolding words
words-Short fuel zero line h = (h, tt)
words-Short fuel (suc cuts) [] h = (h, tt)
words-Short zero (suc cuts) (c ∷ line) h = absurd (omega (arith, h.0))
words-Short (suc fuel) (suc cuts) (c ∷ line) (lt, (b, bs)) = elim (==-cases c b' ') [
  | inl blank ↦
      let (first, others) = words-Short fuel cuts line (omega arith, bs) in
      rw blank ((omega arith, tt), ((omega (arith, first.0), first.1), All-more fuel _ others))
  | inr letter ↦
      let (first, others) = words-Short fuel (suc cuts) line (omega arith, bs) in
      rw (ne→== c b' ' letter) (Short-cons fuel c _ b first, All-more fuel _ others)
]
