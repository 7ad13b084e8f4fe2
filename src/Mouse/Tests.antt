-- ===== src/Mouse/Tests.antt =====
-- Runs of the two mouse drivers, drivers/mouse.c and drivers/usb_hid_mouse.c.
use artyom_x.Base.{
  ℕ, ◌+◌, ◌≡◌, ◌≢◌, refl, true, none, some, List, [], ◌∷◌, ltb, ◌==◌, if◌then◌else◌, arith, get_or,
}
use artyom_x.Mouse.{
  Mouse, Ports, mouse_handler, received, take_report, sign_extend, handle_mouse, limit,
  mouse_install, configure, enable_commands, command, mouse_read_wait, mouse_write_wait, put_wait,
  mouse_wait_read, mouse_wait_write,
}
use artyom_x.Mouse.Packets.{
  Irq, motion_of, decode, delivered, interrupts, waiting, interrupts-decode,
}
use artyom_x.Mouse.Cursor.{IsOnScreen, Turn, irq, frame, turns, turns-IsOnScreen}
use artyom_x.Mouse.Hid.{Bytes, not_yet, see, see_interface, see_endpoint, scan}
use artyom_x.Mouse.Hid.Scan.{scan-safe}

abbrev resting : Mouse
resting = record {
  mouse_dx = 0;
  mouse_dy = 0;
  mouse_buttons = 0;
  m_cursor_x = 320;
  m_cursor_y = 240;
  mouse_present = true;
  cycle = 0;
  packet = 0 ∷ (0 ∷ (0 ∷ []));
}

-- One packet with a spurious interrupt in it, and the start of another.
abbrev irqs : List Irq
irqs = (1, 9) ∷ ((1, 5) ∷ ((0, 77) ∷ ((1, 254) ∷ ((1, 8) ∷ []))))

interrupts-run : (interrupts irqs resting).mouse_dx ≡ 5
unfolding interrupts mouse_handler received take_report sign_extend
interrupts-run = refl

interrupts-decode_example :
    motion_of (interrupts irqs (waiting 0 0 0 0 resting))
    ≡ decode (delivered irqs) (motion_of resting)
interrupts-decode_example = interrupts-decode irqs 0 0 0 resting

abbrev a_while : List Turn
a_while = irq 1 8 ∷ (irq 1 127 ∷ (irq 1 128 ∷ (frame ∷ [])))

turns-IsOnScreen_example : IsOnScreen 1024 768 (turns 1024 768 a_while resting)
turns-IsOnScreen_example =
    turns-IsOnScreen 1024 768 a_while resting (omega arith) (omega arith)
      (record { column = omega arith; row = omega arith })

-- At the right edge of a wide screen the cursor goes back to column 639.
edge_run :
    (handle_mouse 1024 768 (record resting { m_cursor_x = 1023; mouse_dx = 1 })).m_cursor_x ≡ 639
unfolding handle_mouse limit
edge_run = refl

-- A controller that is always ready and acknowledges.
abbrev eager : Ports
eager = record {
  State = ℕ;
  inb = λ port s. (if port == 0x64 then (1, s + 1) else (0xFA, s + 1));
  outb = λ port value s. s + 1;
}

install_run : (mouse_install eager 3 0 resting).0 ≡ true
unfolding mouse_install configure enable_commands command mouse_read_wait mouse_write_wait put_wait
    mouse_wait_read mouse_wait_write
install_run = refl

-- A configuration with a boot mouse on endpoint 1.
abbrev config : Bytes
config i =
    get_or
      (9 ∷ 2 ∷ 25 ∷ 0 ∷ 1 ∷ 1 ∷ 0 ∷ 160 ∷ 50 ∷ 9 ∷ 4 ∷ 0 ∷ 0 ∷ 1 ∷ 3 ∷ 1 ∷ 2 ∷ 0 ∷ 7 ∷ 5 ∷ 129 ∷ 3
        ∷ 4 ∷ 0 ∷ 10 ∷ [])
      i 0

scan-runs :
    scan 128 25 config 9 not_yet
    ≡ some (record { in_target_iface = true; target_iface = 0; found_ep = 1; found_ep_max = 4 })
unfolding scan see see_interface see_endpoint
scan-runs = refl

abbrev nines : Bytes
nines i = 9

abbrev nines_and_zeros : Bytes
nines_and_zeros i = if ltb i 27 then 9 else 0

scan-safe_example :
    (scan 128 27 nines 9 not_yet ≢ none)
    × (scan 128 27 nines 9 not_yet ≡ scan 128 27 nines_and_zeros 9 not_yet)
scan-safe_example =
    scan-safe 27 nines nines_and_zeros (omega arith) (λ i. omega arith) (λ i l. ground (arith, l))
