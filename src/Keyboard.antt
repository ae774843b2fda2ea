-- ===== src/Keyboard.antt =====
-- Kernel/drivers/keyboard.c: the ring of keys that wait, the modifiers, and what they make of a key.
-- The interrupt handler gets its scancode from `readKeyRaw`, which is a port read in assembly. A
-- reader that finds no key sleeps, and goes on at the test of its loop.
pub mod Keys
pub mod Queue
pub mod Reading
mod Tests
use tpe2_so.Base.{
  ℕ, zero, suc, ◌+◌, ◌-◌, Bool, true, false, not, ◌&&◌, ◌||◌, Option, none, some, List, [], ◌∷◌,
  ltb, leb, ◌==◌, if◌then◌else◌, update, get_or,
}
use tpe2_so.Keyboard.Keys.{
  key_arrow_right, key_arrow_left, key_arrow_down, key_arrow_up, key_lctrl, key_rctrl, key_altgr,
  key_delete, key_num_enter, key_num_forward_slash, key_lock_caps, key_lshift, key_rshift, key_c,
  key_d, key_table, ascii_table, shift_ascii_table,
}

abbrev pub buff_len : ℕ
buff_len = 4096

-- The driver's variables. `key_state` is an array of 105 entries, `buffer` one of 4096.
pub record Keyboard : Type 0 where
  pub key_state : ℕ → Bool
  pub keys_to_read : ℕ
  pub is_special_key : Bool
  pub blocked_pid : ℕ
  pub buffer : ℕ → ℕ
  pub read_idx : ℕ
  pub write_idx : ℕ

-- What the driver asks of the scheduler.
pub data Call : Type 0 where
  block unblock : ℕ → Call

abbrev pub to_upper : ℕ → ℕ
to_upper c = if leb 97 c && leb c 122 then c - 97 + 65 else (if c == 164 then 165 else c)

abbrev pub is_key_pressed : Keyboard → ℕ → Bool
is_key_pressed s key = s.key_state key

-- `if (i == BUFF_LEN) i = 0`, on an index that was moved on.
abbrev pub wrap : ℕ → ℕ
wrap i = if i == buff_len then 0 else i

-- A call that blocks ends with the state in which the process sleeps.
pub data Waited {ℓ} (A : Type ℓ) : Type ℓ where
  asleep : Keyboard → List Call → Waited A
  done : Keyboard → A → Waited A

-- `readKey` from the test of the loop of `waitKey` on.
pub take_key : Keyboard → Waited ℕ
take_key s =
    if s.keys_to_read == 0
    then asleep (record s { write_idx = s.read_idx }) (block s.blocked_pid ∷ [])
    else done
        (record s {
          blocked_pid = 0;
          keys_to_read = s.keys_to_read - 1;
          read_idx = wrap (s.read_idx + 1);
        })
        (s.buffer s.read_idx)

-- `readKey`, which calls `waitKey` first.
pub read_key : ℕ → Keyboard → Waited ℕ
read_key pid s = take_key (record s { blocked_pid = pid })

-- What `readAscii` makes of a key, after its loop.
pub ascii_of : Keyboard → ℕ → ℕ
ascii_of s k =
    let capslock = is_key_pressed s key_lock_caps in
    let shift = is_key_pressed s key_lshift || is_key_pressed s key_rshift in
    let caps = (capslock && not shift) || (shift && not capslock) in
    let ctrl = is_key_pressed s key_lctrl || is_key_pressed s key_rctrl in
    let c : ℕ = if shift then get_or shift_ascii_table k 0 else get_or ascii_table k 0 in
    let cased : ℕ = if caps then to_upper c else c in
    if ctrl && k == key_c then 3 else (if ctrl && k == key_d then 4 else cased)

-- The loop of `readAscii`: keys without a character are skipped. Each turn takes a key, so that more
-- fuel than keys ends with a character or asleep; `none` is fuel that ran out.
pub read_ascii : ℕ → ℕ → Keyboard → Option (Waited ℕ)
read_ascii zero pid s = none
read_ascii (suc fuel) pid s = elim (read_key pid s) [
  | asleep t calls ↦ some (asleep t calls)
  | done t k ↦
      let rest = read_ascii fuel pid t in
      if get_or ascii_table k 0 == 0 then rest else some (done t (ascii_of t k))
]

abbrev pub handle_special_key : ℕ → ℕ
handle_special_key code =
    if code == 0x4D
    then key_arrow_right
    else (if code == 0x4B
        then key_arrow_left
        else (if code == 0x50
            then key_arrow_down
            else (if code == 0x48
                then key_arrow_up
                else (if code == 0x1D
                    then key_lctrl
                    else (if code == 0xE0
                        then key_rctrl
                        else (if code == 0x38
                            then key_altgr
                            else (if code == 0x53
                                then key_delete
                                else (if code == 0x1C
                                    then key_num_enter
                                    else (if code == 0x35 then key_num_forward_slash else 0)))))))))

-- `buffer[write_idx++] = k; keysToRead++`, and the two corrections behind it.
pub push : ℕ → Keyboard → Keyboard
push k s = record s {
  buffer = update s.buffer s.write_idx k;
  write_idx = wrap (s.write_idx + 1);
  keys_to_read = if ltb buff_len (s.keys_to_read + 1) then buff_len else s.keys_to_read + 1;
}

-- The two corrections where no key was stored.
pub settle : Keyboard → Keyboard
settle s = record s {
  write_idx = wrap s.write_idx;
  keys_to_read = if ltb buff_len s.keys_to_read then buff_len else s.keys_to_read;
}

-- The new entry of `keyState`: caps lock changes sides when it goes down.
abbrev pub new_state : Keyboard → ℕ → Bool → Bool
new_state s k pressed =
    if k == key_lock_caps then (if pressed then not (s.key_state k) else s.key_state k) else pressed

-- `handleKeyboardInterrupt` from `if (k == 0) return` on.
pub key_event : Keyboard → ℕ → Bool → Keyboard × List Call
key_event s k pressed =
    if k == 0
    then (s, [])
    else (let t = record s { key_state = update s.key_state k (new_state s k pressed) } in
        let u : Keyboard = if pressed then push k t else settle t in
        (u, if s.blocked_pid == 0 then [] else unblock s.blocked_pid ∷ []))

-- The key of a scancode without its top bit.
abbrev pub key_of : Bool → ℕ → ℕ
key_of special code = if special then handle_special_key code else get_or key_table code 0

pub handle_keyboard_interrupt : ℕ → Keyboard → Keyboard × List Call
handle_keyboard_interrupt code s =
    let pressed = not (leb 128 code) in
    let low : ℕ = if leb 128 code then code - 128 else code in
    let k = key_of s.is_special_key low in
    if not s.is_special_key && code == 0xE0
    then (record s { is_special_key = true }, [])
    else (if leb 89 low then (s, []) else key_event (record s { is_special_key = false }) k pressed)
