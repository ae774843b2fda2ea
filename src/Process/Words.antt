-- ===== src/Process/Words.antt =====
-- Words in the memory of a new process, and the fields of `ProcState`.
use tpe2_so.Base.{
  ℕ, zero, suc, ◌+◌, ◌*◌, ◌/◌, ◌%◌, ◌^◌, ◌≤◌, ◌<◌, ◌≡◌, ◌⊎◌, inl, inr, refl, Bool, true, ◌&&◌, ◌||◌,
  List, [], ◌∷◌, arith, leb, update, update_self, update_ne, ◌∙◌,
}
use tpe2_so.Strings.{Text}
use tpe2_so.Process.{store, load, put_fields, start_fields, frame_size}

pub store-outside : (n a v : ℕ) (m : Text) (x : ℕ) → (x < a) ⊎ (a + n ≤ x) → store n a v m x ≡ m x
unfolding store
store-outside zero a v m x h = refl
store-outside (suc n) a v m x h =
    store-outside n (a + 1) (v / 256) (update m a (v % 256)) x (ground arith)
    ∙ update_ne m a (v % 256) x (ground arith)

pub load_same :
    (n a : ℕ) (m t : Text) → ((x : ℕ) → a ≤ x → x < a + n → t x ≡ m x) → load n a t ≡ load n a m
unfolding load
load_same zero a m t h = refl
load_same (suc n) a m t h =
    let rest = load_same n (a + 1) m t (λ x lo hi. h x (omega arith) (omega arith)) in
    rw (h a (omega arith) (omega arith), rest) refl

-- 256 ^ n.
values : ℕ → ℕ
values zero = 1
values (suc n) = 256 * values n

load-store : (n a v : ℕ) (m : Text) → v < values n → load n a (store n a v m) ≡ v
unfolding load store values
load-store zero a v m h = omega arith
load-store (suc n) a v m h =
    let lowest : store n (a + 1) (v / 256) (update m a (v % 256)) a ≡ v % 256 =
      store-outside n (a + 1) (v / 256) (update m a (v % 256)) a (inl (omega arith))
      ∙ update_self m a (v % 256) in
    rw (lowest, load-store n (a + 1) (v / 256) (update m a (v % 256)) (omega arith)) (omega arith)

pub load-store64 : (a v : ℕ) (m : Text) → v < 2 ^ 64 → load 8 a (store 8 a v m) ≡ v
load-store64 a v m h = load-store 8 a v m (unfold values in omega arith)

-- Words at two offsets that do not overlap.
abbrev apart : ℕ → ℕ → Bool
apart i j = leb (i + 8) j || leb (j + 8) i

abbrev all_apart : ℕ → List (ℕ × ℕ) → Bool
all_apart i [] = true
all_apart i ((j, v) ∷ fields) = apart i j && all_apart i fields

both : (a b : Bool) → (a && b) ≡ true → (a ≡ true) × (b ≡ true)
both a b h = ground arith

load-fields :
    (fields : List (ℕ × ℕ)) (p i : ℕ) (m : Text)
    → all_apart i fields ≡ true
    → load 8 (p + i) (put_fields p fields m) ≡ load 8 (p + i) m
unfolding put_fields
load-fields [] p i m h = refl
load-fields ((j, v) ∷ fields) p i m h =
    let (here, rest) = both (apart i j) (all_apart i fields) h in
    load-fields fields p i (store 8 (p + j) v m) rest
    ∙ load_same 8 (p + i) m (store 8 (p + j) v m)
        (λ x lo hi. store-outside 8 (p + j) v m x (ground arith))

-- The last write that touches the word at the offset `i` is the one of `v`.
abbrev Sets : ℕ → ℕ → List (ℕ × ℕ) → Type 0
Sets i v [] = ⊥
Sets i v ((j, w) ∷ fields) = ((j ≡ i) × (w ≡ v) × (all_apart i fields ≡ true)) ⊎ Sets i v fields

load-field :
    (fields : List (ℕ × ℕ)) (p i v : ℕ) (m : Text)
    → Sets i v fields
    → v < 2 ^ 64
    → load 8 (p + i) (put_fields p fields m) ≡ v
unfolding put_fields
load-field [] p i v m h word = absurd h
load-field ((j, w) ∷ fields) p i v m (inl (ej, ew, h)) word =
    rw (ej, ew) (load-fields fields p i (store 8 (p + i) v m) h ∙ load-store64 (p + i) v m word)
load-field ((j, w) ∷ fields) p i v m (inr rest) word =
    load-field fields p i v (store 8 (p + j) w m) rest word

-- What the fields that are set hold.
pub record Holds (p program argc argv sp : ℕ) (m : Text) : Type 0 where
  pub cs : load 8 (p + 128) m ≡ 8
  pub rsp : load 8 (p + 144) m ≡ sp
  pub rflags : load 8 (p + 136) m ≡ 0x202
  pub rip : load 8 (p + 120) m ≡ program
  pub rdi : load 8 (p + 72) m ≡ argc
  pub rsi : load 8 (p + 64) m ≡ argv

pub start_fields_lem :
    (p program argc argv sp : ℕ) (m : Text)
    → program < 2 ^ 64
    → argc < 2 ^ 64
    → argv < 2 ^ 64
    → sp < 2 ^ 64
    → Holds p program argc argv sp (put_fields p (start_fields program argc argv sp) m)
start_fields_lem p program argc argv sp m program_word argc_word argv_word sp_word =
    let fields = start_fields program argc argv sp in
    record {
      cs = load-field fields p 128 8 m (inl (refl, refl, refl)) (omega arith);
      rsp = load-field fields p 144 sp m (inr (inr (inl (refl, refl, refl)))) sp_word;
      rflags =
          load-field fields p 136 0x202 m (inr (inr (inr (inl (refl, refl, refl))))) (omega arith);
      rip =
          load-field fields p 120 program m (inr (inr (inr (inr (inl (refl, refl, refl))))))
            program_word;
      rdi =
          load-field fields p 72 argc m (inr (inr (inr (inr (inr (inl (refl, refl, refl)))))))
            argc_word;
      rsi =
          load-field fields p 64 argv m (inr (inr (inr (inr (inr (inr (inl (refl, refl, refl))))))))
            argv_word;
    }

abbrev within : List (ℕ × ℕ) → Bool
within [] = true
within ((i, v) ∷ fields) = leb (i + 8) frame_size && within fields

fields-above :
    (fields : List (ℕ × ℕ)) (p : ℕ) (m : Text) (x : ℕ)
    → within fields ≡ true
    → p + frame_size ≤ x
    → put_fields p fields m x ≡ m x
unfolding put_fields
fields-above [] p m x w h = refl
fields-above ((i, v) ∷ fields) p m x w h =
    let (here, rest) = both (leb (i + 8) frame_size) (within fields) w in
    fields-above fields p (store 8 (p + i) v m) x rest h
    ∙ store-outside 8 (p + i) v m x (ground arith)

pub start_fields-above :
    (p program argc argv sp : ℕ) (m : Text) (x : ℕ)
    → p + frame_size ≤ x
    → put_fields p (start_fields program argc argv sp) m x ≡ m x
start_fields-above p program argc argv sp m x h =
    fields-above (start_fields program argc argv sp) p m x refl h
