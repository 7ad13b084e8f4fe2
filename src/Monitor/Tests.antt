-- ===== src/Monitor/Tests.antt =====
-- The console of drivers/monitor.c on its last line.
use artyom_x.Base.{◌≡◌, refl, [], ◌∷◌, arith, true}
use artyom_x.Monitor.{Console, monitor_put, hex_char}
use artyom_x.Monitor.Put.{IsConsole, Puts, monitor_put-Puts}
use artyom_x.Monitor.Numbers.{hex_digits}

-- The cell at `j` is `j`; the cursor is in the last cell of all.
abbrev corner : Console
corner = record { vm = λ j. j; cursor_x = 79; cursor_y = 24; hardware = 1999 }

corner-IsConsole : IsConsole corner
corner-IsConsole = record { column = omega arith; line = omega arith }

monitor_put-Puts_example :
    Puts 65 corner (monitor_put 65 corner) × IsConsole (monitor_put 65 corner)
monitor_put-Puts_example = monitor_put-Puts 65 corner-IsConsole

hex_runs : hex_digits 7 true 0xbeef ≡ 98 ∷ 101 ∷ 101 ∷ 102 ∷ []
unfolding hex_digits hex_char
hex_runs = refl
