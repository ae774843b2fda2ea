-- ===== src/Process/Arguments.antt =====
-- The arguments of a new process, in its memory with the pointers and the registers.
use tpe2_so.Base.{
  ℕ, zero, suc, ◌+◌, ◌-◌, ◌*◌, ◌%◌, ◌≤◌, ◌<◌, ◌≡◌, ◌^◌, ◌≢◌, ◌⊎◌, refl, inl, inr, ap, List, [], ◌∷◌,
  arith, length, All, update, update_self, update_ne, ◌∙◌, ==-cases,
}
use tpe2_so.Strings.{Text}
use tpe2_so.Strings.Equal.{Reads}
use tpe2_so.Process.{
  proc_mem, frame_size, zero_out, copy_text, copy_args, store, load, put_pointers, put_fields,
  start_fields, build, align_8,
}
use tpe2_so.Process.Words.{
  store-outside, load_same, load-store64, start_fields_lem, start_fields-above,
}

zero_out-outside : (n a : ℕ) (m : Text) (x : ℕ) → x < a → zero_out n a m x ≡ m x
unfolding zero_out
zero_out-outside zero a m x h = refl
zero_out-outside (suc n) a m x h =
    zero_out-outside n (a + 1) (update m a 0) x (omega arith) ∙ update_ne m a 0 x (omega arith)

zero_out-inside : (n a : ℕ) (m : Text) (x : ℕ) → a ≤ x → x < a + n → zero_out n a m x ≡ 0
unfolding zero_out
zero_out-inside zero a m x lo hi = absurd (omega arith)
zero_out-inside (suc n) a m x lo hi = elim (==-cases x a) [
  | inl e ↦ rw e (zero_out-outside n (a + 1) (update m a 0) a (omega arith) ∙ update_self m a 0)
  | inr ne ↦ zero_out-inside n (a + 1) (update m a 0) x (omega arith) (omega arith)
]

copy_text-before : (w : List ℕ) (a : ℕ) (m : Text) (x : ℕ) → x < a → copy_text w a m x ≡ m x
unfolding copy_text
copy_text-before [] a m x h = refl
copy_text-before (c ∷ w) a m x h =
    copy_text-before w (a + 1) (update m a c) x (omega arith) ∙ update_ne m a c x (omega arith)

copy_text-behind :
    (w : List ℕ) (a : ℕ) (m : Text) (x : ℕ) → a + length w ≤ x → copy_text w a m x ≡ m x
unfolding copy_text
copy_text-behind [] a m x h = refl
copy_text-behind (c ∷ w) a m x h =
    copy_text-behind w (a + 1) (update m a c) x (omega arith) ∙ update_ne m a c x (omega arith)

-- The text is there, and ends at the zero that was behind it before.
copy_text-Reads :
    (w : List ℕ) (a : ℕ) (m : Text)
    → All (λ c. c ≢ 0) w
    → ((x : ℕ) → x ≡ a + length w → m x ≡ 0)
    → Reads (copy_text w a m) a w
unfolding copy_text
copy_text-Reads [] a m nz z = z a (omega arith)
copy_text-Reads (c ∷ w) a m (h, nz) z = (
  copy_text-before w (a + 1) (update m a c) a (omega arith) ∙ update_self m a c,
  h,
  copy_text-Reads w (a + 1) (update m a c) nz
      (λ x e. update_ne m a c x (omega arith) ∙ z x (omega arith)),
)

Reads-same :
    (m t : Text) (p : ℕ) (w : List ℕ) → ((x : ℕ) → p ≤ x → t x ≡ m x) → Reads m p w → Reads t p w
Reads-same m t p [] f e = f p (omega arith) ∙ e
Reads-same m t p (c ∷ w) f (e, nz, r) =
    (f p (omega arith) ∙ e, nz, Reads-same m t (p + 1) w (λ x h. f x (omega arith)) r)

-- The texts at a list of addresses.
abbrev ReadsList : Text → List ℕ → List (List ℕ) → Type 0
ReadsList m [] [] = Unit
ReadsList m (d ∷ ds) (w ∷ ws) = Reads m d w × ReadsList m ds ws
ReadsList m _ _ = ⊥

-- What the arguments need: their bytes, and an end each.
abbrev pub total : List (List ℕ) → ℕ
total [] = 0
total (w ∷ ws) = length w + 1 + total ws

record Copied (ws : List (List ℕ)) (mem_end size : ℕ) (m t : Text) (dirs : List ℕ) (size' : ℕ)
    : Type 0 where
  sum : size' ≡ size + total ws
  above : (x : ℕ) → mem_end - size ≤ x → t x ≡ m x
  texts : ReadsList t dirs ws
  places : All (λ d. (mem_end - size' ≤ d) × (d ≤ mem_end)) dirs

copy_args-Copied :
    (ws : List (List ℕ)) (low mem_end size : ℕ) (m : Text)
    → All (λ w. All (λ c. c ≢ 0) w) ws
    → low + size + total ws ≤ mem_end
    → ((x : ℕ) → low ≤ x → x < mem_end - size → m x ≡ 0)
    → Copied ws mem_end size m
        (copy_args ws mem_end size m).0
        (copy_args ws mem_end size m).1
        (copy_args ws mem_end size m).2
unfolding copy_args
copy_args-Copied [] low mem_end size m nz fits z = record {
  sum = omega arith;
  above = λ x h. refl;
  texts = tt;
  places = tt;
}
copy_args-Copied (w ∷ ws) low mem_end size m (nw, nz) fits z =
    let size' : ℕ = size + (length w + 1) in
    let dir : ℕ = mem_end - size' in
    let one = copy_text w dir m in
    let rest =
      copy_args-Copied ws low mem_end size' one nz (omega arith)
        (λ x lo hi. copy_text-before w dir m x hi ∙ z x lo (omega arith)) in
    let here = copy_text-Reads w dir m nw (λ x e. z x (omega arith) (omega arith)) in
    record {
      sum = omega (arith, rest.sum);
      above = λ x h. rest.above x (omega arith) ∙ copy_text-behind w dir m x (omega arith);
      texts = (Reads-same one (copy_args ws mem_end size' one).0 dir w rest.above here, rest.texts);
      places = ((omega (arith, rest.sum), omega arith), rest.places);
    }

-- A text that lies at or above some place, in a memory that is the same from there on.
ReadsList-same :
    (m t : Text) (low high : ℕ) (ds : List ℕ) (ws : List (List ℕ))
    → ((x : ℕ) → low ≤ x → t x ≡ m x)
    → All (λ d. (low ≤ d) × (d ≤ high)) ds
    → ReadsList m ds ws
    → ReadsList t ds ws
ReadsList-same m t low high [] [] same p r = tt
ReadsList-same m t low high [] (w ∷ ws) same p r = absurd r
ReadsList-same m t low high (d ∷ ds) [] same p r = absurd r
ReadsList-same m t low high (d ∷ ds) (w ∷ ws) same ((lo, hi), p) (r, rs) = (
  Reads-same m t d w (λ x h. same x (omega arith)) r,
  ReadsList-same m t low high ds ws same p rs,
)

-- The entries of the array at `base` point at the texts.
unfoldable pub ReadsArgs : Text → ℕ → List (List ℕ) → Type 0
ReadsArgs m base [] = Unit
ReadsArgs m base (w ∷ ws) = Reads m (load 8 base m) w × ReadsArgs m (base + 8) ws

put_pointers-outside :
    (ds : List ℕ) (a : ℕ) (m : Text) (x : ℕ)
    → (x < a) ⊎ (a + 8 * length ds ≤ x)
    → put_pointers ds a m x ≡ m x
unfolding put_pointers
put_pointers-outside [] a m x h = refl
put_pointers-outside (d ∷ ds) a m x h =
    put_pointers-outside ds (a + 8) (store 8 a d m) x (ground arith)
    ∙ store-outside 8 a d m x (ground arith)

-- The entries, in a memory `t` that is the same at the array.
put_pointers-ReadsArgs :
    (t m : Text) (ds : List ℕ) (ws : List (List ℕ)) (a low high : ℕ)
    → high < 2 ^ 64
    → All (λ d. (low ≤ d) × (d ≤ high)) ds
    → ((x : ℕ) → a ≤ x → t x ≡ put_pointers ds a m x)
    → ReadsList t ds ws
    → ReadsArgs t a ws
unfolding put_pointers ReadsArgs
put_pointers-ReadsArgs t m [] [] a low high small p same r = tt
put_pointers-ReadsArgs t m [] (w ∷ ws) a low high small p same r = absurd r
put_pointers-ReadsArgs t m (d ∷ ds) [] a low high small p same r = absurd r
put_pointers-ReadsArgs t m (d ∷ ds) (w ∷ ws) a low high small ((lo, hi), p) same (r, rs) =
    let written = store 8 a d m in
    let here : load 8 a t ≡ d =
      load_same 8 a (put_pointers ds (a + 8) written) t (λ x l h. same x l)
      ∙ load_same 8 a written (put_pointers ds (a + 8) written)
          (λ x l h. put_pointers-outside ds (a + 8) written x (inl (omega arith)))
      ∙ load-store64 a d m (omega arith) in
    (
      rw here r,
      put_pointers-ReadsArgs t written ds ws (a + 8) low high small p (λ x h. same x (omega arith))
          rs,
    )

ReadsList-length :
    (m : Text) (ds : List ℕ) (ws : List (List ℕ)) → ReadsList m ds ws → length ds ≡ length ws
ReadsList-length m [] [] r = refl
ReadsList-length m [] (w ∷ ws) r = absurd r
ReadsList-length m (d ∷ ds) [] r = absurd r
ReadsList-length m (d ∷ ds) (w ∷ ws) (r, rs) = ap suc (ReadsList-length m ds ws rs)

align_8_lem : (r : ℕ) → (align_8 r ≤ r) × (r ≤ align_8 r + 7)
align_8_lem r = ground arith

-- A frame below an array at `argv`.
frame-fits :
    (low argv : ℕ)
    → low + 8 + 7 + frame_size ≤ argv
    → (low ≤ align_8 (argv - 8) - frame_size + 1)
      × (align_8 (argv - 8) - frame_size + 1 + frame_size ≤ argv)
frame-fits low argv h =
    let (below, near) = align_8_lem (argv - 8) in
    (omega (arith, below, near), omega (arith, below, near))

-- The bytes of the process that its arguments, the pointers to them and its registers take, with the
-- loss of alignment.
abbrev pub needs : List (List ℕ) → ℕ
needs args = total args + 8 * length args + 8 + 7 + frame_size

-- Where the arguments, the pointers and the registers fit into the memory of the process, which lies
-- below 2 ^ 64: the registers lie in it, below the array of the pointers. Read back from the memory they
-- are the program, the code segment 8, the flags 0x202, a stack pointer that is a multiple of 8, the
-- number of arguments, and the address of an array in which every entry points at the text of its
-- argument.
pub build-ReadsArgs :
    (program : ℕ) (args : List (List ℕ)) (mem_start : ℕ) (memory : Text)
    → All (λ w. All (λ c. c ≢ 0) w) args
    → needs args < proc_mem
    → mem_start + proc_mem < 2 ^ 64
    → program < 2 ^ 64
    → let p = build program args mem_start memory in
      let field = λ (offset : ℕ). load 8 (p.regs + offset) p.memory in
      (mem_start ≤ p.regs)
      × (p.regs + frame_size ≤ field 64)
      × (field 120 ≡ program)
      × (field 128 ≡ 8)
      × (field 136 ≡ 0x202)
      × (field 144 % 8 ≡ 0)
      × (field 72 ≡ length args)
      × ReadsArgs p.memory (field 64) args
unfolding build
build-ReadsArgs program args mem_start memory nz fits high word =
    let mem_end : ℕ = mem_start + proc_mem - 1 in
    let clean = zero_out proc_mem mem_start memory in
    let k =
      copy_args-Copied args mem_start mem_end 0 clean nz (omega arith)
        (λ x lo hi. zero_out-inside proc_mem mem_start memory x lo (omega arith)) in
    let copied = copy_args args mem_end 0 clean in
    let argv : ℕ = mem_end - copied.2 - 8 * length args in
    let rsp : ℕ = align_8 (argv - 8) in
    let near = align_8_lem (argv - 8) in
    let frame = frame-fits mem_start argv (omega (arith, k.sum)) in
    let p : ℕ = rsp - frame_size + 1 in
    let pointed : Text = put_pointers copied.1 argv copied.0 in
    let final : Text = put_fields p (start_fields program (length args) argv rsp) pointed in
    let f =
      start_fields_lem p program (length args) argv rsp pointed word (omega arith) (omega arith)
        (omega (arith, near)) in
    let count : length copied.1 ≡ length args = ReadsList-length copied.0 copied.1 args k.texts in
    let array : (x : ℕ) → argv ≤ x → final x ≡ pointed x =
      λ x h. start_fields-above p program (length args) argv rsp pointed x (omega (arith, frame)) in
    let texts : ReadsList final copied.1 args =
      ReadsList-same copied.0 final (mem_end - copied.2) mem_end copied.1 args
        (λ x h.
          array x (omega arith)
          ∙ put_pointers-outside copied.1 argv copied.0 x (inr (omega (arith, count, k.sum))))
        k.places k.texts in
    (
      frame.0,
      rw f.rsi frame.1,
      f.rip,
      f.cs,
      f.rflags,
      rw f.rsp (ground arith),
      f.rdi,
      rw f.rsi (
          put_pointers-ReadsArgs final copied.0 copied.1 args argv (mem_end - copied.2) mem_end
            (omega arith) k.places array texts),
    )
