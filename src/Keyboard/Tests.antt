-- ===== src/Keyboard/Tests.antt =====
-- Keys typed, corrected and read on the driver of drivers/keyboard.c.
use artyom_x.Base.{◌≡◌, refl, List, [], ◌∷◌, arith, replicate}
use artyom_x.Keyboard.{
  Keyboard, keyboard_read, append_key, drop_key, enter_key, backspace_key, char_key, handle_key,
  keyboard_callback,
}
use artyom_x.Keyboard.Queue.{Event, irq, get, read, type_key, drop_last, key, interrupt, run, reads}
use artyom_x.Keyboard.Refine.{IsLine, run-reads}

-- The ring near its end, so that the line goes round it.
abbrev late : Keyboard
late = record {
  buffer = replicate 256 0;
  head = 255;
  tail = 255;
  count = 0;
  is_enter_pressed = 0;
  current_key = 0;
}

late-IsLine : IsLine late []
late-IsLine = omega arith

-- "a", "s", backspace, "d", enter, with a key release between them.
abbrev typing : List Event
typing =
    irq 1 0x1e
    ∷ irq 1 0x1f
    ∷ irq 1 0x0e
    ∷ irq 1 0x9f
    ∷ irq 1 0x20
    ∷ irq 1 0x1c
    ∷ get
    ∷ get
    ∷ get
    ∷ get
    ∷ []

typing_runs : run typing late ≡ 97 ∷ 100 ∷ 10 ∷ 255 ∷ []
unfolding run keyboard_read keyboard_callback handle_key enter_key backspace_key char_key append_key
    drop_key
typing_runs = refl

run-reads_example : run typing late ≡ 97 ∷ 100 ∷ 10 ∷ 255 ∷ []
unfolding reads interrupt key type_key drop_last read
run-reads_example = run-reads typing late [] late-IsLine
