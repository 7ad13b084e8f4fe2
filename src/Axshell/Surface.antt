-- ===== src/Axshell/Surface.antt =====
-- The calls of programs, kernel/axshell.c: a new window, its events, and the two senders.
use artyom_x.Base.{
  ℕ, zero, suc, ◌+◌, ◌*◌, ◌%◌, ◌^◌, ◌&&◌, Bool, true, false, not, Option, none, some, List, [], ◌∷◌,
  ◌==◌, if◌then◌else◌, get_or, take,
}
use artyom_x.Libc.{Memory}
use artyom_x.Kheap.{Heap, kmalloc}
use artyom_x.Gfx.{word, int_lt, int_sub, int_div, rounds}
use artyom_x.Loader.Image.{put_bytes_at}
use artyom_x.Axshell.{
  Event, Window, Desktop, no_window, no_event, window_at, set_window, later, surf_focus,
  surf_push_event, draw_surface, titlebar_h, menubar_h, dock_h, win_min_w, win_min_h,
}

unfoldable pub find_unused : List Window → Option ℕ
find_unused [] = none
find_unused (w ∷ ws) = if not w.used then some 0 else later (find_unused ws)

-- `if (a < b) a = b` and `if (a > b) a = b`.
abbrev pub at_least : ℕ → ℕ → ℕ
at_least b a = if int_lt a b then b else a

abbrev pub at_most : ℕ → ℕ → ℕ
at_most b a = if int_lt b a then b else a

-- Where a new window stands.
abbrev pub place_x : ℕ → Desktop → ℕ
place_x w d = word (int_sub (int_div d.scr_w 2) (int_div w 2) + d.z_counter % 4 * 24)

unfoldable pub place_y : ℕ → Desktop → ℕ
place_y h d =
    let y = word (int_sub (int_div d.scr_h 2) (int_div h 2) + d.z_counter % 4 * 18) in
    let low = at_least (menubar_h + 4) y in
    let bottom = int_sub d.scr_h (dock_h + 4) in
    let high =
      if int_lt bottom (word (low + h + titlebar_h))
      then int_sub bottom (word (h + titlebar_h))
      else low in
    at_least (menubar_h + 4) high

unfoldable pub fill_canvas : ℕ → ℕ → Memory → Memory
fill_canvas zero a mem = mem
fill_canvas (suc n) a mem = fill_canvas n (a + 4) (put_bytes_at 4 a 0xF01C1C22 mem)

-- The window of slot `i` before it has a canvas.
unfoldable pub new_window : ℕ → ℕ → ℕ → ℕ → Desktop → Window
new_window i w h kind d = record no_window {
  dirty = true;
  id = i;
  used = true;
  visible = true;
  kind = kind;
  canvas_w = w;
  canvas_h = h;
  w = w;
  h = h;
  x = place_x w d;
  y = place_y h d;
}

-- With what `malloc` answers; its argument is below 2^31 for a window that a screen has room for.
unfoldable pub open_window : ℕ → List ℕ → ℕ → ℕ → Window → ℕ × Heap → Desktop → Option ℕ × Desktop
open_window i title w h s (canvas, heap) d0 =
    let d = record d0 { heap = heap } in
    let s' = record s { canvas = canvas; title = take 47 title } in
    let filled = record d { memory = fill_canvas (rounds (word (w * h))) canvas d.memory } in
    if canvas == 0
    then (none, set_window i (record s { used = false }) d)
    else (some i, surf_focus i (set_window i s' filled))

-- `none` is -1.
unfoldable pub surf_alloc : ℕ → List ℕ → ℕ → ℕ → ℕ → Desktop → Option ℕ × Desktop
surf_alloc hhdm title w h kind d = elim (find_unused d.surfaces) [
  | none ↦ (none, d)
  | some i ↦
      open_window i title w h (new_window i w h kind d) (kmalloc hhdm (word (w * h * 4)) d.heap) d
]

abbrev pub clamp_w : ℕ → Desktop → ℕ
clamp_w w d = at_most d.scr_w (at_least win_min_w w)

abbrev pub clamp_h : ℕ → Desktop → ℕ
clamp_h h d = at_most (int_sub d.scr_h (menubar_h + dock_h)) (at_least win_min_h h)

-- The answer is the canvas of the new window, or 0.
unfoldable pub ax_syscall_surface : ℕ → List ℕ → ℕ → ℕ → Desktop → ℕ × Desktop
ax_syscall_surface hhdm title w h d =
    let (id, d') = surf_alloc hhdm title (clamp_w w d) (clamp_h h d) 0 d in
    elim id [ none ↦ (0, d') | some i ↦ ((window_at d'.surfaces i).canvas, d') ]

-- The first window whose canvas has these 32 bits.
abbrev pub is_canvas : ℕ → Window → Bool
is_canvas canvas_ptr s = s.used && (s.canvas % 2 ^ 32 == canvas_ptr)

unfoldable pub find_canvas : ℕ → List Window → Option ℕ
find_canvas canvas_ptr [] = none
find_canvas canvas_ptr (s ∷ ws) =
    let rest = later (find_canvas canvas_ptr ws) in if is_canvas canvas_ptr s then some 0 else rest

-- What a poll answers: 1 with an event, 0, or -1.
pub data Polled : Type 0 where
  event : Event → Polled
  no_more : Polled
  not_found : Polled

unfoldable pub poll_window : Window → Polled × Window
poll_window s =
    if not (s.ev_head == s.ev_tail)
    then (event (get_or s.ev_queue s.ev_tail no_event), record s { ev_tail = (s.ev_tail + 1) % 16 })
    else (no_more, s)

unfoldable pub poll_found : Option ℕ → Desktop → Polled × Desktop
poll_found none d = (not_found, d)
poll_found (some i) d =
    let (answer, s) = poll_window (window_at d.surfaces i) in (answer, set_window i s d)

abbrev pub ax_syscall_poll : ℕ → Desktop → Polled × Desktop
ax_syscall_poll canvas_ptr d = poll_found (find_canvas canvas_ptr d.surfaces) d

-- 0 where the window is there; it is drawn at once, which clears `dirty` again.
unfoldable pub ax_syscall_commit : ℕ → Desktop → Bool × Desktop
ax_syscall_commit canvas_ptr d = elim (find_canvas canvas_ptr d.surfaces) [
  | none ↦ (false, d)
  | some i ↦
      (true, set_window i (draw_surface (record (window_at d.surfaces i) { dirty = true })) d)
]

unfoldable pub push_found : Event → Option ℕ → Desktop → Desktop
push_found ev none d = d
push_found ev (some i) d = set_window i (surf_push_event ev (window_at d.surfaces i)) d

abbrev pub ax_send_event_to_canvas : ℕ → Event → Desktop → Desktop
ax_send_event_to_canvas canvas_ptr ev d = push_found ev (find_canvas canvas_ptr d.surfaces) d

unfoldable pub ax_send_event_to_active : Event → Desktop → Desktop
ax_send_event_to_active ev d = elim d.active_surface [
  | none ↦ d
  | some i ↦
      let s = window_at d.surfaces i in
      if s.used && s.focused then set_window i (surf_push_event ev s) d else d
]
