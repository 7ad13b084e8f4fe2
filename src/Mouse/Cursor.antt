-- ===== src/Mouse/Cursor.antt =====
-- The cursor of drivers/mouse.c stays on the screen.
use artyom_x.Base.{ℕ, ◌+◌, ◌%◌, ◌≤◌, ◌<◌, ◌&&◌, not, List, [], ◌∷◌, ◌==◌, elim_if, arith}
use artyom_x.Gfx.{word}
use artyom_x.Mouse.{Mouse, limit, handle_mouse, move_cursor, received, mouse_handler, take_report}

pub record IsOnScreen (width height : ℕ) (m : Mouse) : Type 0 where
  pub column : m.m_cursor_x < width
  pub row : m.m_cursor_y < height

limit_bound : (size last c : ℕ) → last < size → limit size last c < size
unfolding limit
limit_bound size last c l = ground (arith, l)

-- A call keeps the cursor on a screen of at least 640 columns and 480 rows, whatever movement has come.
handle_mouse-IsOnScreen :
    {width height : ℕ} {m : Mouse}
    → 640 ≤ width
    → 480 ≤ height
    → IsOnScreen width height m
    → IsOnScreen width height (handle_mouse width height m)
unfolding handle_mouse
handle_mouse-IsOnScreen {width} {height} {m} a b v =
    elim_if (IsOnScreen width height) ((m.mouse_dx == 0) && (m.mouse_dy == 0)) {x = m}
      {y = move_cursor width height m} (λ still. v)
      (λ moved. record {
        column = limit_bound width 639 (word (m.m_cursor_x + m.mouse_dx)) (omega (arith, a));
        row = limit_bound height 479 (word (m.m_cursor_y + m.mouse_dy)) (omega (arith, b));
      })

-- What happens to the driver: an interrupt with its status and byte, or a call of `handle_mouse`.
pub data Turn : Type 0 where
  irq : ℕ → ℕ → Turn
  frame : Turn

unfoldable pub turns : ℕ → ℕ → List Turn → Mouse → Mouse
turns width height [] m = m
turns width height (irq status byte ∷ more) m =
    turns width height more (mouse_handler status byte m)
turns width height (frame ∷ more) m = turns width height more (handle_mouse width height m)

mouse_handler-IsOnScreen :
    {width height : ℕ} (status byte : ℕ) {m : Mouse}
    → IsOnScreen width height m
    → IsOnScreen width height (mouse_handler status byte m)
unfolding mouse_handler received take_report
mouse_handler-IsOnScreen {width} {height} status byte {m} v =
    elim_if (IsOnScreen width height) (not (status % 2 == 1)) (λ idle. v)
      (λ ready.
        elim_if (IsOnScreen width height) ((m.cycle + 1) % 256 == 3)
          (λ full. record { column = v.column; row = v.row })
          (λ part. record { column = v.column; row = v.row }))

-- On a screen of at least 640 columns and 480 rows the cursor stays on the screen, whatever bytes the mouse
-- sends and whenever the frames come.
pub turns-IsOnScreen :
    (width height : ℕ) (more : List Turn) (m : Mouse)
    → 640 ≤ width
    → 480 ≤ height
    → IsOnScreen width height m
    → IsOnScreen width height (turns width height more m)
unfolding turns
turns-IsOnScreen width height [] m a b v = v
turns-IsOnScreen width height (irq status byte ∷ more) m a b v =
    turns-IsOnScreen width height more (mouse_handler status byte m) a b
      (mouse_handler-IsOnScreen status byte v)
turns-IsOnScreen width height (frame ∷ more) m a b v =
    turns-IsOnScreen width height more (handle_mouse width height m) a b
      (handle_mouse-IsOnScreen a b v)
