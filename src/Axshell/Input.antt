-- ===== src/Axshell/Input.antt =====
-- The mouse in `process_input` of kernel/axshell.c, from the search of a window on: the press, the
-- button held, the release and the event to the window below. `none` is a `free` of what the heap does
-- not have.
use artyom_x.Base.{
  ℕ, ◌+◌, ◌/◌, ◌%◌, ◌&&◌, ◌||◌, Bool, true, false, not, Option, none, some, List, [], ◌∷◌, ◌==◌,
  if◌then◌else◌, map,
}
use artyom_x.Kheap.{Heap, kfree}
use artyom_x.Gfx.{word, is_negative, int_lt, int_le, int_sub}
use artyom_x.Axshell.{
  Window, Desktop, window_at, set_window, later, surf_at, surf_focus, surf_push_event, close_event,
  mouse_event, resize_event, titlebar_h, menubar_h, dock_h, win_min_w, win_min_h, resize_grip,
}
use artyom_x.Axshell.Surface.{at_least}

pub record Mouse : Type 0 where
  pub x : ℕ
  pub y : ℕ
  pub prev_x : ℕ
  pub prev_y : ℕ
  pub left : Bool
  pub right : Bool
  pub prev_left : Bool
  pub prev_right : Bool
  pub clicked : Bool
  pub released : Bool

-- A coordinate of the cursor, kept on the screen.
unfoldable pub on_screen : ℕ → ℕ → ℕ
on_screen size c =
    let low = if is_negative c then 0 else c in if int_le size low then int_sub size 1 else low

-- Behind `handle_mouse`, with the variables of the driver.
unfoldable pub update_mouse : ℕ → ℕ → ℕ → ℕ → ℕ → Mouse → Mouse
update_mouse m_cursor_x m_cursor_y mouse_buttons scr_w scr_h m =
    let left = mouse_buttons % 2 == 1 in
    record {
      x = on_screen scr_w m_cursor_x;
      y = on_screen scr_h m_cursor_y;
      prev_x = m.x;
      prev_y = m.y;
      left = left;
      right = mouse_buttons / 2 % 2 == 1;
      prev_left = m.left;
      prev_right = m.right;
      clicked = left && not m.left;
      released = not left && m.left;
    }

unfoldable pub in_resize_grip : Window → ℕ → ℕ → Bool
in_resize_grip w mx my =
    let right = word (w.x + w.w) in
    let bottom = word (w.y + titlebar_h + w.h) in
    (int_le (int_sub right resize_grip) mx && int_le (int_sub bottom resize_grip) my)
    && (int_lt mx right && int_lt my bottom)

unfoldable pub toggle_maximize : Desktop → Window → Window
toggle_maximize d w =
    let all = record w {
      restore_x = w.x;
      restore_y = w.y;
      restore_w = w.w;
      restore_h = w.h;
      x = 0;
      y = menubar_h;
      w = d.scr_w;
      h = int_sub d.scr_h (menubar_h + dock_h);
      maximized = true;
    } in
    let back = record w {
      x = w.restore_x;
      y = w.restore_y;
      w = w.restore_w;
      h = w.restore_h;
      maximized = false;
    } in
    let w' = if not w.maximized then all else back in
    if not w.used then w else surf_push_event (resize_event w'.w w'.h) w'

-- Does `process_input` return here, or go on to the button?
pub data Pressed : Type 0 where
  returns : Desktop → Pressed
  goes_on : Desktop → Pressed

unfoldable pub find_shown : List Window → Option ℕ
find_shown [] = none
find_shown (w ∷ ws) = if w.used && w.visible then some 0 else later (find_shown ws)

-- Where the closed window was the active one.
unfoldable pub focus_next : Desktop → Desktop
focus_next d0 =
    let d = record d0 { active_surface = none } in
    elim (find_shown d.surfaces) [ none ↦ d | some i ↦ surf_focus i d ]

abbrev pub is_active : Desktop → Window → Bool
is_active d w = elim d.active_surface [ none ↦ false | some i ↦ i == w.id ]

unfoldable pub close_with : ℕ → Option Heap → Desktop → Option Pressed
close_with i none d = none
close_with i (some h) d =
    let w = record (surf_push_event close_event (window_at d.surfaces i)) {
      used = false;
      canvas = 0;
    } in
    let d' = record (set_window i w d) { heap = h } in
    some (returns (if is_active d w then focus_next d' else d'))

abbrev pub close_window : ℕ → Desktop → Option Pressed
close_window i d = close_with i (kfree (window_at d.surfaces i).canvas d.heap) d

-- The columns of a button of the title bar.
abbrev pub is_button : ℕ → ℕ → Bool
is_button first lx = int_le first lx && int_le lx (first + 12)

-- Behind the other branches.
unfoldable pub toggled : ℕ → ℕ → Desktop → Pressed
toggled i lx d =
    if is_button 50 lx
    then returns (set_window i (toggle_maximize d (window_at d.surfaces i)) d)
    else goes_on d

unfoldable pub start_drag : Mouse → Window → Window
start_drag m w = record w { dragging = true; drag_dx = int_sub m.x w.x; drag_dy = int_sub m.y w.y }

-- A press on window `i`, which has the focus by now.
unfoldable pub press_window : Mouse → ℕ → ℕ → Desktop → Option Pressed
press_window m mouse_buttons i d =
    let w = window_at d.surfaces i in
    let lx = int_sub m.x w.x in
    let ly = int_sub m.y w.y in
    let ev = mouse_event lx (int_sub ly titlebar_h) mouse_buttons in
    if in_resize_grip w m.x m.y
    then some (toggled i lx (set_window i (record w { resizing = true }) d))
    else if not (int_lt ly titlebar_h)
    then some (toggled i lx (set_window i (surf_push_event ev w) d))
    else if is_button 10 lx
    then close_window i d
    else if is_button 30 lx
    then some (returns (set_window i (record w { minimized = true }) d))
    else some (toggled i lx (set_window i (start_drag m w) d))

unfoldable pub press : Mouse → ℕ → Desktop → Option Pressed
press m mouse_buttons d = elim (surf_at m.x m.y d) [
  | none ↦ some (goes_on d)
  | some i ↦ press_window m mouse_buttons i (surf_focus i d)
]

-- The new coordinate of a dragged window: not before `low`, not so far that it leaves `limit`.
unfoldable pub drag_window : Mouse → Desktop → Window → Window
drag_window m d w =
    let y = at_least menubar_h (int_sub m.y w.drag_dy) in
    let x = at_least 0 (int_sub m.x w.drag_dx) in
    let x' = if int_lt d.scr_w (word (x + w.w)) then int_sub d.scr_w w.w else x in
    let bottom = int_sub d.scr_h (dock_h + 2) in
    let y' =
      if int_lt bottom (word (y + w.h + titlebar_h))
      then int_sub bottom (word (w.h + titlebar_h))
      else y in
    record w { x = x'; y = at_least menubar_h y' }

unfoldable pub resize_window : Mouse → Desktop → Window → Window
resize_window m d w =
    let ww = at_least win_min_w (int_sub m.x w.x) in
    let hh = at_least win_min_h (int_sub m.y (word (w.y + titlebar_h))) in
    let bottom = int_sub d.scr_h (dock_h + 2) in
    let ww' = if int_lt d.scr_w (word (w.x + ww)) then int_sub d.scr_w w.x else ww in
    let hh' =
      if int_lt bottom (word (w.y + hh + titlebar_h))
      then int_sub bottom (word (w.y + titlebar_h))
      else hh in
    surf_push_event (resize_event ww' hh') (record w { w = ww'; h = hh' })

-- The round of a window while the button is held.
unfoldable pub hold_window : Mouse → Desktop → Window → Window
hold_window m d w =
    let dragged = if w.dragging then drag_window m d w else w in
    let resized = if dragged.resizing then resize_window m d dragged else dragged in
    if not w.used then w else resized

abbrev pub hold : Mouse → Desktop → Desktop
hold m d = record d { surfaces = map (hold_window m d) d.surfaces }

abbrev pub let_go : Window → Window
let_go w = record w { dragging = false; resizing = false }

abbrev pub release : Desktop → Desktop
release d = record d { surfaces = map let_go d.surfaces }

unfoldable pub has_focused : List Window → Bool
has_focused [] = false
has_focused (w ∷ ws) = (w.used && w.focused) || has_focused ws

-- The event to the window below the mouse.
unfoldable pub point : Mouse → ℕ → Desktop → Desktop
point m mouse_buttons d = elim (surf_at m.x m.y d) [
  | none ↦ if has_focused d.surfaces then d else record d { active_surface = none }
  | some i ↦
      let w = window_at d.surfaces i in
      let ev = mouse_event (int_sub m.x w.x) (int_sub (int_sub m.y w.y) titlebar_h) mouse_buttons in
      set_window i (surf_push_event ev w) d
]

-- From the button to the end; the keys go to a terminal and change no window.
unfoldable pub after_press : Mouse → ℕ → Desktop → Desktop
after_press m mouse_buttons d0 =
    let d1 = if m.left then hold m d0 else d0 in
    let d2 = if m.released then release d1 else d1 in
    let moved = not (m.x == m.prev_x) || not (m.y == m.prev_y) in
    if m.clicked || (m.released || moved) then point m mouse_buttons d2 else d2

-- `process_input` where no menu, no widget and not the dock takes the mouse.
unfoldable pub process_mouse : Mouse → ℕ → Desktop → Option Desktop
process_mouse m mouse_buttons d =
    elim (if m.clicked then press m mouse_buttons d else some (goes_on d)) [
      | none ↦ none
      | some (returns d') ↦ some d'
      | some (goes_on d') ↦ some (after_press m mouse_buttons d')
    ]
