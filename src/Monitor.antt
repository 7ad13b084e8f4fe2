-- ===== src/Monitor.antt =====
-- The text console, drivers/monitor.c: 25 lines of 80 words of video memory, the cursor, and the
-- numbers printed on it. A char is its code below 256; it is signed, so that from 128 on it is
-- no printable one.
mod Scroll
mod Put
mod Numbers
mod Tests
use artyom_x.Base.{
  ℕ, zero, suc, ◌+◌, ◌-◌, ◌*◌, ◌/◌, ◌%◌, ◌^◌, ◌&&◌, Bool, true, false, not, List, [], ◌∷◌, ltb, leb,
  ◌==◌, if◌then◌else◌, bit_or,
}
use artyom_x.Libc.{Memory, store, print_buf}

-- `hardware` is the location that the VGA board has been sent last.
pub record Console : Type 0 where
  pub vm : Memory
  pub cursor_x : ℕ
  pub cursor_y : ℕ
  pub hardware : ℕ

-- The attribute byte 15, white on black, as the high byte.
abbrev pub attribute : ℕ
attribute = 3840

abbrev pub blank : ℕ
blank = bit_or 0x20 attribute

pub move_cursor : Console → Console
move_cursor s = record s { hardware = (s.cursor_y * 80 + s.cursor_x) % 2 ^ 16 }

-- `for (i = …; …; i++) vm[i] = vm[i+80];`
pub lines_up : ℕ → ℕ → Memory → Memory
lines_up zero i vm = vm
lines_up (suc n) i vm = lines_up n (i + 1) (store vm i (vm (i + 80)))

-- `for (i = …; …; i++) vm[i] = blank;`
pub blank_cells : ℕ → ℕ → Memory → Memory
blank_cells zero i vm = vm
blank_cells (suc n) i vm = blank_cells n (i + 1) (store vm i blank)

pub scroll : Console → Console
scroll s =
    if leb 25 s.cursor_y
    then record s { vm = blank_cells 80 1920 (lines_up 1920 0 s.vm); cursor_y = 24 }
    else s

-- The cases of `monitor_put`, up to the end of the line.
pub put_char : ℕ → Console → Console
put_char c s =
    if (c == 8) && not (s.cursor_x == 0)
    then record s { cursor_x = s.cursor_x - 1 }
    else if c == 9
    then record s { cursor_x = ((s.cursor_x + 8) / 8 * 8) % 256 }
    else if c == 13
    then record s { cursor_x = 0 }
    else if c == 10
    then record s { cursor_x = 0; cursor_y = (s.cursor_y + 1) % 256 }
    else if leb 32 c && ltb c 128
    then record s {
      vm = store s.vm (s.cursor_y * 80 + s.cursor_x) (bit_or c attribute);
      cursor_x = (s.cursor_x + 1) % 256;
    }
    else s

pub wrap_line : Console → Console
wrap_line s =
    if leb 80 s.cursor_x then record s { cursor_x = 0; cursor_y = (s.cursor_y + 1) % 256 } else s

pub monitor_put : ℕ → Console → Console
monitor_put c s = move_cursor (scroll (wrap_line (put_char c s)))

pub monitor_clear : Console → Console
monitor_clear s =
    move_cursor (record s { vm = blank_cells 2000 0 s.vm; cursor_x = 0; cursor_y = 0 })

-- A string, up to its final 0.
unfoldable pub monitor_write : List ℕ → Console → Console
monitor_write [] s = s
monitor_write (c ∷ cs) s =
    let rest = monitor_write cs (monitor_put c s) in if c == 0 then s else rest

pub hex_char : ℕ → ℕ
hex_char tmp = if leb 10 tmp then tmp - 10 + 97 else tmp + 48

-- The loop over the nibbles, `i` being four times the rounds left, and the last one behind it.
pub hex_loop : ℕ → Bool → ℕ → Console → Console
hex_loop zero no_zeroes n s = monitor_put (hex_char (n % 16)) s
hex_loop (suc rounds) no_zeroes n s =
    let tmp = n / 2 ^ (4 * suc rounds) % 16 in
    let skip = (tmp == 0) && no_zeroes in
    hex_loop rounds skip n (if skip then s else monitor_put (hex_char tmp) s)

pub monitor_write_hex : ℕ → Console → Console
monitor_write_hex n s = hex_loop 7 true n (monitor_write (48 ∷ 120 ∷ []) s)

-- The digits in the order of the buffer `c`, with the bytes of it that are left.
pub dec_digits : ℕ → ℕ → List ℕ
dec_digits zero acc = []
dec_digits (suc room) acc =
    let rest = dec_digits room (acc / 10) in if acc == 0 then [] else (48 + acc % 10) ∷ rest

-- `acc` is an `s32int`; a negative one has no digits.
pub monitor_write_dec : ℕ → Console → Console
monitor_write_dec n s =
    if n == 0
    then monitor_put 48 s
    else if leb (2 ^ 31) n
    then monitor_write [] s
    else monitor_write (print_buf (dec_digits 32 n)) s
