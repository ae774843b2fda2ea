-- ===== src/Keyboard/Queue.antt =====
-- The keys that wait in the keyboard's buffer, in the order in which they were typed.
use tpe2_so.Base.{
  ℕ, zero, suc, ◌+◌, ◌-◌, ◌%◌, ◌≤◌, ◌<◌, ◌≡◌, inl, inr, refl, sym, ap, ◌∙◌, Bool, true, false, not,
  ◌&&◌, ◌||◌, List, [], ◌∷◌, ◌++◌, arith, leb, ◌==◌, if◌then◌else◌, update, update_ne, length,
  Bool-cases,
}
use mathlib.Core.List.{append-nil, append_assoc}
use tpe2_so.Keyboard.{
  Keyboard, wrap, push, settle, key_event, new_state, key_of, handle_keyboard_interrupt,
}

-- `n` entries of the buffer from an index on.
unfoldable pub window : (ℕ → ℕ) → ℕ → ℕ → List ℕ
window buf i zero = []
window buf i (suc n) = buf i ∷ window buf (wrap (i + 1)) n

unfoldable pub waiting : Keyboard → List ℕ
waiting s = window s.buffer s.read_idx s.keys_to_read

-- The indices lie in the buffer, and as many keys as they say wait.
pub record IsValid (s : Keyboard) : Type 0 where
  pub read_in : s.read_idx < 4096
  pub write_in : s.write_idx < 4096
  pub fits : s.keys_to_read ≤ 4096
  pub apart : s.write_idx ≡ (s.read_idx + s.keys_to_read) % 4096

window-push :
    (buf : ℕ → ℕ) (i n w k : ℕ)
    → i < 4096
    → n < 4096
    → w ≡ (i + n) % 4096
    → window (update buf w k) i (suc n) ≡ window buf i n ++ (k ∷ [])
unfolding window
window-push buf i zero w k hi hn e = ap (λ (x : ℕ). x ∷ []) (ground arith)
window-push buf i (suc n) w k hi hn e =
    let tail = window-push buf (wrap (i + 1)) n w k (ground arith) (omega arith) (ground arith) in
    rw (update_ne buf w k i (omega arith)) (ap (λ l. buf i ∷ l) tail)

push-IsValid : (k : ℕ) (s : Keyboard) → IsValid s → s.keys_to_read < 4096 → IsValid (push k s)
unfolding push
push-IsValid k s v room = record {
  read_in = v.read_in;
  write_in = ground (arith, v);
  fits = ground (arith, v);
  apart = ground (arith, v);
}

pub push-waiting :
    (k : ℕ) (s : Keyboard)
    → IsValid s
    → s.keys_to_read < 4096
    → waiting (push k s) ≡ waiting s ++ (k ∷ [])
unfolding waiting push
push-waiting k s v room =
    let more : (push k s).keys_to_read ≡ suc s.keys_to_read = ground arith in
    rw more (window-push s.buffer s.read_idx s.keys_to_read s.write_idx k v.read_in room v.apart)

settle-waiting : (s : Keyboard) → IsValid s → waiting (settle s) ≡ waiting s
unfolding waiting settle
settle-waiting s v =
    let keys : (settle s).keys_to_read ≡ s.keys_to_read = ground (arith, v) in rw keys refl

settle-IsValid : (s : Keyboard) → IsValid s → IsValid (settle s)
unfolding settle
settle-IsValid s v = record {
  read_in = v.read_in;
  write_in = ground (arith, v);
  fits = ground (arith, v);
  apart = ground (arith, v);
}

-- The keys that go down, read off the scancodes alone: after 224 the next code is a special key's.
unfoldable pub keys_down : Bool → List ℕ → List ℕ
keys_down special [] = []
keys_down special (code ∷ codes) =
    let low : ℕ = if leb 128 code then code - 128 else code in
    let prefix = keys_down true codes in
    let same = keys_down special codes in
    let plain = keys_down false codes in
    if not special && code == 224
    then prefix
    else (if leb 89 low
        then same
        else (if leb 128 code || key_of special low == 0
            then plain
            else key_of special low ∷ plain))

-- The handler called on one code after another.
unfoldable pub typed : List ℕ → Keyboard → Keyboard
typed [] s = s
typed (code ∷ codes) s = typed codes (handle_keyboard_interrupt code s).0

-- What an event does to the queue.
record Took (s t : Keyboard) (keys : List ℕ) : Type 0 where
  valid : IsValid t
  special : t.is_special_key ≡ false
  more : t.keys_to_read ≤ s.keys_to_read + 1
  queue : waiting t ≡ waiting s ++ keys

-- The queue does not hang on the table of keys.
with_state : (s : Keyboard) (f : ℕ → Bool) → IsValid s → IsValid (record s { key_state = f })
with_state s f v = record {
  read_in = v.read_in;
  write_in = v.write_in;
  fits = v.fits;
  apart = v.apart;
}

key_event-Took :
    (s : Keyboard) (k : ℕ) (pressed : Bool)
    → IsValid s
    → s.is_special_key ≡ false
    → s.keys_to_read < 4096
    → Took s (key_event s k pressed).0 (if not pressed || k == 0 then [] else k ∷ [])
unfolding key_event waiting push settle
key_event-Took s k true v special room = elim (Bool-cases (k == 0)) [
  | inl z ↦ rw z (record {
    valid = v;
    special = special;
    more = omega arith;
    queue = sym (append-nil (waiting s));
  })
  | inr n ↦ rw n (record {
    valid = push-IsValid k _ (with_state s (update s.key_state k (new_state s k true)) v) room;
    special = special;
    more = ground (arith, v);
    queue = push-waiting k _ (with_state s (update s.key_state k (new_state s k true)) v) room;
  })
]
key_event-Took s k false v special room = elim (Bool-cases (k == 0)) [
  | inl z ↦ rw z (record {
    valid = v;
    special = special;
    more = omega arith;
    queue = sym (append-nil (waiting s));
  })
  | inr n ↦ rw n (record {
    valid = settle-IsValid _ (with_state s (update s.key_state k (new_state s k false)) v);
    special = special;
    more = ground (arith, v);
    queue =
        settle-waiting _ (with_state s (update s.key_state k (new_state s k false)) v)
        ∙ sym (append-nil (waiting s));
  })
]

join :
    (xs plain : List ℕ) (k : ℕ) (up no_key : Bool)
    → xs ++ (if not (not up) || no_key then [] else k ∷ []) ++ plain
      ≡ xs ++ (if up || no_key then plain else k ∷ plain)
join xs plain k true z = ap (λ l. l ++ plain) (append-nil xs)
join xs plain k false true = ap (λ l. l ++ plain) (append-nil xs)
join xs plain k false false = append_assoc xs (k ∷ []) plain

-- One code: what waits afterwards, and what the codes behind it then stand for.
record Stepped (s t : Keyboard) (code : ℕ) (codes : List ℕ) : Type 0 where
  valid : IsValid t
  more : t.keys_to_read ≤ s.keys_to_read + 1
  queue :
      waiting t ++ keys_down t.is_special_key codes
      ≡ waiting s ++ keys_down s.is_special_key (code ∷ codes)

with_special : (s : Keyboard) (b : Bool) → IsValid s → IsValid (record s { is_special_key = b })
with_special s b v = record {
  read_in = v.read_in;
  write_in = v.write_in;
  fits = v.fits;
  apart = v.apart;
}

handle-Stepped :
    (code : ℕ) (codes : List ℕ) (s : Keyboard)
    → IsValid s
    → s.keys_to_read < 4096
    → Stepped s (handle_keyboard_interrupt code s).0 code codes
unfolding keys_down handle_keyboard_interrupt waiting
handle-Stepped code codes s v room =
    let low : ℕ = if leb 128 code then code - 128 else code in
    let k : ℕ = key_of s.is_special_key low in
    let took =
      key_event-Took (record s { is_special_key = false }) k (not (leb 128 code))
        (with_special s false v) refl room in
    elim (Bool-cases (not s.is_special_key && code == 224)) [
      | inl first ↦
          rw first
            (record { valid = with_special s true v; more = omega arith; queue = rw first refl })
      | inr other ↦ rw other (elim (Bool-cases (leb 89 low)) [
        | inl out ↦ rw out (record { valid = v; more = omega arith; queue = rw (other, out) refl })
        | inr key ↦ rw key (record {
          valid = took.valid;
          more = took.more;
          queue =
              rw (took.special, other, key)
                (ap (λ l. l ++ keys_down false codes) took.queue
                  ∙ join (waiting s) (keys_down false codes) k (leb 128 code) (k == 0));
        })
      ])
    ]

-- From a state in which the indices fit the count, as long as the codes find room: the keys that wait
-- after the interrupts are those that waited, followed by the keys that the codes press, in order, as
-- the codes alone say; and the indices fit the count again.
pub typed-waiting :
    (codes : List ℕ) (s : Keyboard)
    → IsValid s
    → s.keys_to_read + length codes ≤ 4096
    → IsValid (typed codes s)
      × (waiting (typed codes s) ≡ waiting s ++ keys_down s.is_special_key codes)
unfolding typed keys_down
typed-waiting [] s v room = (v, sym (append-nil (waiting s)))
typed-waiting (code ∷ codes) s v room =
    let step = handle-Stepped code codes s v (omega (arith, room)) in
    let rest =
      typed-waiting codes (handle_keyboard_interrupt code s).0 step.valid
        (omega (arith, step.more, room)) in
    (rest.0, rest.1 ∙ step.queue)
