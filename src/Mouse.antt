-- ===== src/Mouse.antt =====
-- The mouse: the PS/2 driver of drivers/mouse.c, with the cursor that both drivers move. An `int` is its
-- 32-bit word. The ports are arguments: what a device answers to reads and does at writes.
pub mod Packets
pub mod Cursor
pub mod Hid
mod Tests
use artyom_x.Base.{
  ℕ, zero, suc, ◌+◌, ◌-◌, ◌*◌, ◌/◌, ◌%◌, ◌^◌, ◌&&◌, ◌||◌, Bool, true, false, not, Option, none,
  some, List, [], ◌∷◌, ltb, leb, ◌==◌, if◌then◌else◌, get_or, set,
}
use artyom_x.Gfx.{word, is_negative, int_le, int_sub}

-- The static variables of the driver, those of `mouse_handler` with them.
pub record Mouse : Type 0 where
  pub mouse_dx : ℕ
  pub mouse_dy : ℕ
  pub mouse_buttons : ℕ
  pub m_cursor_x : ℕ
  pub m_cursor_y : ℕ
  pub mouse_present : Bool
  pub cycle : ℕ
  pub packet : List ℕ

-- The int of an `int8_t`.
unfoldable pub sign_extend : ℕ → ℕ
sign_extend b = if leb 128 b then 2 ^ 32 - 256 + b else b

-- The report of a mouse: buttons and the two movements, as bytes.
unfoldable pub take_report : ℕ → ℕ → ℕ → Mouse → Mouse
take_report buttons dx dy m = record m {
  mouse_dx = word (m.mouse_dx + sign_extend dx);
  mouse_dy = int_sub m.mouse_dy (sign_extend dy);
  mouse_buttons = buttons % 8;
}

unfoldable pub received : ℕ → Mouse → Mouse
received byte m0 =
    let p = set m0.packet m0.cycle byte in
    let cycle = (m0.cycle + 1) % 256 in
    let m = record m0 { packet = p; cycle = cycle } in
    if cycle == 3
    then take_report (get_or p 0 0) (get_or p 1 0) (get_or p 2 0) (record m { cycle = 0 })
    else m

-- An interrupt with the status and the byte of the controller; the acknowledgements to the interrupt
-- controllers are left out.
unfoldable pub mouse_handler : ℕ → ℕ → Mouse → Mouse
mouse_handler status byte m = if not (status % 2 == 1) then m else received byte m

-- `handle_mouse` behind the poll of the USB mouse: one coordinate, and both.
unfoldable pub limit : ℕ → ℕ → ℕ → ℕ
limit size last c = let low = if is_negative c then 0 else c in if leb size low then last else low

abbrev pub move_cursor : ℕ → ℕ → Mouse → Mouse
move_cursor gfx_width gfx_height m = record m {
  m_cursor_x = limit gfx_width 639 (word (m.m_cursor_x + m.mouse_dx));
  m_cursor_y = limit gfx_height 479 (word (m.m_cursor_y + m.mouse_dy));
  mouse_dx = 0;
  mouse_dy = 0;
}

unfoldable pub handle_mouse : ℕ → ℕ → Mouse → Mouse
handle_mouse gfx_width gfx_height m =
    if (m.mouse_dx == 0) && (m.mouse_dy == 0) then m else move_cursor gfx_width gfx_height m

-- The controller on its ports.
pub record Ports : Type 1 where
  pub State : Type 0
  pub inb : ℕ → State → ℕ × State
  pub outb : ℕ → ℕ → State → State

module _ (p : Ports) where
  -- The wait loops, with the rounds left: is the controller ready in time?
  unfoldable pub mouse_wait_read : ℕ → p.State → Bool × p.State
  mouse_wait_read zero s = (false, s)
  mouse_wait_read (suc timeout) s =
      let (status, s') = p.inb 0x64 s in
      let rest = mouse_wait_read timeout s' in if status % 2 == 1 then (true, s') else rest

  unfoldable pub mouse_wait_write : ℕ → p.State → Bool × p.State
  mouse_wait_write zero s = (false, s)
  mouse_wait_write (suc timeout) s =
      let (status, s') = p.inb 0x64 s in
      let rest = mouse_wait_write timeout s' in if status / 2 % 2 == 0 then (true, s') else rest

  -- A write behind the wait; did it happen?
  unfoldable pub put_wait : ℕ → ℕ → ℕ → p.State → Bool × p.State
  put_wait timeout port value s =
      let (ready, s') = mouse_wait_write timeout s in
      if ready then (true, p.outb port value s') else (false, s')

  unfoldable pub mouse_write_wait : ℕ → ℕ → p.State → p.State
  mouse_write_wait timeout data_byte s =
      let (ready, s') = put_wait timeout 0x64 0xD4 s in
      if ready then (put_wait timeout 0x60 data_byte s').1 else s'

  unfoldable pub mouse_read_wait : ℕ → p.State → Option ℕ × p.State
  mouse_read_wait timeout s =
      let (ready, s') = mouse_wait_read timeout s in
      let (byte, s'') = p.inb 0x60 s' in if ready then (some byte, s'') else (none, s')

  abbrev pub is_ack : Option ℕ → Bool
  is_ack none = false
  is_ack (some ack) = ack == 0xFA

  -- A command to the mouse that it acknowledges.
  unfoldable pub command : ℕ → ℕ → p.State → Bool × p.State
  command timeout data_byte s =
      let (ack, s') = mouse_read_wait timeout (mouse_write_wait timeout data_byte s) in
      (is_ack ack, s')

  -- The second bit of the configuration byte set.
  abbrev pub with_irq : ℕ → ℕ
  with_irq status = if status / 2 % 2 == 1 then status else status + 2

  unfoldable pub enable_commands : ℕ → p.State → Bool × p.State
  enable_commands timeout s0 =
      let (a, s1) = command timeout 0xF6 s0 in
      let b = command timeout 0xF4 s1 in if a then b else (false, s1)

  unfoldable pub configure : ℕ → Option ℕ → p.State → Bool × p.State
  configure timeout none s = (false, s)
  configure timeout (some status) s =
      let (a, s1) = put_wait timeout 0x64 0x60 s in
      let (b, s2) = put_wait timeout 0x60 (with_irq status) s1 in
      let commands = enable_commands timeout s2 in
      if not a then (false, s1) else if not b then (false, s2) else commands

  -- The answer is whether the handler is registered.
  unfoldable pub mouse_install : ℕ → p.State → Mouse → Bool × p.State × Mouse
  mouse_install timeout s m =
      let (a, s1) = put_wait timeout 0x64 0xA8 s in
      let (b, s2) = put_wait timeout 0x64 0x20 s1 in
      let (status, s3) = mouse_read_wait timeout s2 in
      let (installed, s4) = configure timeout status s3 in
      if not a
      then (false, s1, m)
      else if not b
      then (false, s2, m)
      else if installed
      then (true, s4, record m { mouse_present = true })
      else (false, s4, m)
