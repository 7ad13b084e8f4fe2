-- ===== src/Keyboard.antt =====
-- The keyboard driver: the ring buffer and the interrupt handler of drivers/keyboard.c, with the
-- scan-code table of drivers/keyboard_map.h. A function that changes the static variables returns
-- the new `Keyboard`; the calls that leave the driver are returned as a list of `Output`.
pub mod Queue
pub mod Ring
pub mod Refine
pub mod Enter
mod Tests
use artyom_x.Base.{
  ℕ, ◌+◌, ◌-◌, ◌/◌, ◌%◌, ◌||◌, Bool, List, [], ◌∷◌, ◌++◌, ltb, leb, ◌==◌, if◌then◌else◌, get_or,
  set,
}

abbrev pub buffer_size : ℕ
buffer_size = 256

abbrev pub enter_key_code : ℕ
enter_key_code = 0x1c

-- `keyboard_buffer` and the other static variables. A character is its byte.
pub record Keyboard : Type 0 where
  pub buffer : List ℕ
  pub head : ℕ
  pub tail : ℕ
  pub count : ℕ
  pub is_enter_pressed : ℕ
  pub current_key : ℕ

-- `monitor_put(c)` and `outb(port, value)`.
pub data Output : Type 0 where
  put : ℕ → Output
  outb : ℕ → ℕ → Output

abbrev pub keyboard_map : List ℕ
keyboard_map =
    0 ∷ 27 ∷ b'1' ∷ b'2' ∷ b'3' ∷ b'4' ∷ b'5' ∷ b'6' ∷ b'7' ∷ b'8' ∷ b'9' ∷ b'0' ∷ b'-' ∷ b'=' ∷ 8
    ∷ 9 ∷ b'q' ∷ b'w' ∷ b'e' ∷ b'r' ∷ b't' ∷ b'y' ∷ b'u' ∷ b'i' ∷ b'o' ∷ b'p' ∷ b'[' ∷ b']' ∷ 10 ∷ 0
    ∷ b'a' ∷ b's' ∷ b'd' ∷ b'f' ∷ b'g' ∷ b'h' ∷ b'j' ∷ b'k' ∷ b'l' ∷ b';' ∷ 39 ∷ b'`' ∷ 0 ∷ 92
    ∷ b'z' ∷ b'x' ∷ b'c' ∷ b'v' ∷ b'b' ∷ b'n' ∷ b'm' ∷ b',' ∷ b'.' ∷ b'/' ∷ 0 ∷ b'*' ∷ 0 ∷ b' ' ∷ 0
    ∷ 0 ∷ 0 ∷ 0 ∷ 0 ∷ 0 ∷ 0 ∷ 0 ∷ 0 ∷ 0 ∷ 0 ∷ 0 ∷ 0 ∷ 0 ∷ 0 ∷ 0 ∷ b'-' ∷ 0 ∷ 0 ∷ 0 ∷ b'+' ∷ []

-- Names are spelled as the C functions; the tests are Boolean.
abbrev pub is_buffer_empty : Keyboard → Bool
is_buffer_empty k = k.count == 0

abbrev pub is_buffer_full : Keyboard → Bool
is_buffer_full k = leb (buffer_size - 1) k.count

abbrev pub keyboard_buffer_available : Keyboard → Bool
keyboard_buffer_available k = ltb 0 k.count

unfoldable pub keyboard_clear_buffer : Keyboard → Keyboard
keyboard_clear_buffer k = record k { head = 0; tail = 0; count = 0; is_enter_pressed = 0 }

-- The answer is -1 as a `char` where there is nothing to read.
pub keyboard_read : Keyboard → ℕ × Keyboard
keyboard_read k = if is_buffer_empty k then (255, k) else (
  get_or k.buffer k.tail 0,
  record k { tail = (k.tail + 1) % buffer_size; count = k.count - 1 },
)

-- The three assignments that append a character.
pub append_key : ℕ → Keyboard → Keyboard
append_key c k = record k {
  buffer = set k.buffer k.head c;
  head = (k.head + 1) % buffer_size;
  count = k.count + 1;
}

pub drop_key : Keyboard → Keyboard
drop_key k = record k { head = (k.head + buffer_size - 1) % buffer_size; count = k.count - 1 }

-- The branches of the handler: enter, backspace, and a character with its echo.
pub enter_key : Keyboard → Keyboard
enter_key k =
    let k' = if is_buffer_full k then k else append_key 10 k in record k' { is_enter_pressed = 1 }

pub backspace_key : Keyboard → Keyboard × List Output
backspace_key k = if ltb 0 k.count then (drop_key k, put 8 ∷ put 32 ∷ put 8 ∷ []) else (k, [])

pub char_key : ℕ → Keyboard → Keyboard × List Output
char_key c k = if is_buffer_full k then (k, []) else (append_key c k, put c ∷ [])

-- The handler from `current_key = keycode` to its end, without the end of interrupt.
pub handle_key : ℕ → Keyboard → Keyboard × List Output
handle_key code k0 =
    let k = record k0 { current_key = code } in
    let c = get_or keyboard_map code 0 in
    if code == enter_key_code
    then (enter_key k, [])
    else if code == 0x0e
    then backspace_key k
    else if c == 0
    then (k, [])
    else char_key c k

-- `keyboard_callback`, with what the two ports answer.
pub keyboard_callback : ℕ → ℕ → Keyboard → Keyboard × List Output
keyboard_callback status code k =
    let (k', out) = handle_key code k in
    if status % 2 == 0
    then (k, outb 0x20 0x20 ∷ [])
    else if code / 128 % 2 == 1
    then (k, outb 0x20 0x20 ∷ [])
    else (k', out ++ (outb 0x20 0x20 ∷ []))
