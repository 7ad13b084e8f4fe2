-- ===== src/Axshell.antt =====
-- The window system, kernel/axshell.c: its windows with their event queues, and what the mouse does to
-- them. An `int` is its 32-bit word, as in the graphics library; drawing, traces and `bound_tty` are left
-- out. The children Surface and Input have the calls of programs and the mouse.
pub mod Surface
pub mod Input
pub mod Backdrop
pub mod Calendar
pub mod Find
pub mod Queue
pub mod Topmost
pub mod Focus
pub mod Geometry
mod Tests
use artyom_x.Base.{
  ℕ, zero, suc, ◌+◌, ◌-◌, ◌*◌, ◌/◌, ◌%◌, ◌^◌, ◌&&◌, ◌||◌, Bool, true, false, not, Option, none,
  some, List, [], ◌∷◌, ltb, leb, ◌==◌, if◌then◌else◌, get_or, set, map,
}
use artyom_x.Libc.{Memory}
use artyom_x.Kheap.{Heap}
use artyom_x.Gfx.{word, int_lt, int_le, int_sub}

abbrev pub titlebar_h : ℕ
titlebar_h = 28

abbrev pub menubar_h : ℕ
menubar_h = 24

abbrev pub dock_h : ℕ
dock_h = 56

abbrev pub win_min_w : ℕ
win_min_w = 160

abbrev pub win_min_h : ℕ
win_min_h = 100

abbrev pub resize_grip : ℕ
resize_grip = 14

pub record Event : Type 0 where
  pub type : ℕ
  pub key : ℕ
  pub mx : ℕ
  pub my : ℕ
  pub buttons : ℕ
  pub w : ℕ
  pub h : ℕ

abbrev pub close_event : Event
close_event = record { type = 3; key = 0; mx = 0; my = 0; buttons = 0; w = 0; h = 0 }

abbrev pub mouse_event : ℕ → ℕ → ℕ → Event
mouse_event mx my buttons = record {
  type = 2;
  key = 0;
  mx = mx;
  my = my;
  buttons = buttons;
  w = 0;
  h = 0;
}

abbrev pub resize_event : ℕ → ℕ → Event
resize_event w h = record { type = 4; key = 0; mx = 0; my = 0; buttons = 0; w = w; h = h }

-- `ax_surface_win`; `canvas` is its address.
pub record Window : Type 0 where
  pub id : ℕ
  pub used : Bool
  pub visible : Bool
  pub focused : Bool
  pub minimized : Bool
  pub maximized : Bool
  pub dragging : Bool
  pub resizing : Bool
  pub x : ℕ
  pub y : ℕ
  pub w : ℕ
  pub h : ℕ
  pub restore_x : ℕ
  pub restore_y : ℕ
  pub restore_w : ℕ
  pub restore_h : ℕ
  pub z : ℕ
  pub drag_dx : ℕ
  pub drag_dy : ℕ
  pub title : List ℕ
  pub kind : ℕ
  pub canvas : ℕ
  pub canvas_w : ℕ
  pub canvas_h : ℕ
  pub ev_queue : List Event
  pub ev_head : ℕ
  pub ev_tail : ℕ
  pub anim : ℕ
  pub dirty : Bool

abbrev pub no_event : Event
no_event = record { type = 0; key = 0; mx = 0; my = 0; buttons = 0; w = 0; h = 0 }

abbrev pub no_events : List Event
no_events =
    no_event ∷ no_event ∷ no_event ∷ no_event ∷ no_event ∷ no_event ∷ no_event ∷ no_event ∷ no_event
    ∷ no_event ∷ no_event ∷ no_event ∷ no_event ∷ no_event ∷ no_event ∷ no_event ∷ []

-- What `memset` leaves.
abbrev pub no_window : Window
no_window = record {
  id = 0;
  used = false;
  visible = false;
  focused = false;
  minimized = false;
  maximized = false;
  dragging = false;
  resizing = false;
  x = 0;
  y = 0;
  w = 0;
  h = 0;
  restore_x = 0;
  restore_y = 0;
  restore_w = 0;
  restore_h = 0;
  z = 0;
  drag_dx = 0;
  drag_dy = 0;
  title = [];
  kind = 0;
  canvas = 0;
  canvas_w = 0;
  canvas_h = 0;
  ev_queue = no_events;
  ev_head = 0;
  ev_tail = 0;
  anim = 0;
  dirty = false;
}

-- The static variables, with the heap and the memory that the calls change; an `active_surface` of -1 is
-- `none`.
pub record Desktop : Type 0 where
  pub surfaces : List Window
  pub z_counter : ℕ
  pub active_surface : Option ℕ
  pub scr_w : ℕ
  pub scr_h : ℕ
  pub heap : Heap
  pub memory : Memory

abbrev pub window_at : List Window → ℕ → Window
window_at ws i = get_or ws i no_window

-- A place found in the rest of the table.
unfoldable pub later : Option ℕ → Option ℕ
later none = none
later (some i) = some (suc i)

abbrev pub set_window : ℕ → Window → Desktop → Desktop
set_window i w d = record d { surfaces = set d.surfaces i w }

-- Is the point in the window, or in its title bar?
unfoldable pub covers : ℕ → ℕ → Window → Bool
covers x y w =
    w.used
    && (w.visible
        && (not w.minimized
            && ((int_le w.x x && int_lt x (word (w.x + w.w)))
                && (int_le w.y y && int_lt y (word (w.y + w.h + titlebar_h))))))

-- The loop from window `i` on, with the best so far.
unfoldable pub surf_at_from : ℕ → ℕ → ℕ → List Window → Option ℕ → ℕ → Option ℕ
surf_at_from x y i [] best bestz = best
surf_at_from x y i (w ∷ ws) best bestz =
    let better = surf_at_from x y (i + 1) ws (some i) w.z in
    let rest = surf_at_from x y (i + 1) ws best bestz in
    if covers x y w && int_lt bestz w.z then better else rest

abbrev pub surf_at : ℕ → ℕ → Desktop → Option ℕ
surf_at x y d = surf_at_from x y 0 d.surfaces none (2 ^ 32 - 1)

abbrev pub unfocused : Window → Window
unfocused w = record w { focused = false }

unfoldable pub surf_focus : ℕ → Desktop → Desktop
surf_focus i d =
    let ws = map unfocused d.surfaces in
    let w = window_at ws i in
    record d {
      surfaces = set ws i (record w { focused = true; z = d.z_counter });
      z_counter = word (d.z_counter + 1);
      active_surface = some w.id;
    }

-- One slot of the ring stays free, so it has room for 15 events.
unfoldable pub surf_push_event : Event → Window → Window
surf_push_event ev w =
    let next = (w.ev_head + 1) % 16 in
    let pushed = record w { ev_queue = set w.ev_queue w.ev_head ev; ev_head = next } in
    if not w.used then w else if next == w.ev_tail then w else pushed

-- What `draw_surface` does to the window; the pixels are left out.
unfoldable pub draw_surface : Window → Window
draw_surface w =
    let drawn = record w {
      anim = if int_lt w.anim 18 then w.anim + 1 else w.anim;
      dirty = if w.canvas == 0 then w.dirty else false;
    } in
    if not w.visible || w.minimized then w else drawn
