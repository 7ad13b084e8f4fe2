-- ===== src/Axshell/Tests.antt =====
-- Runs of the window system, kernel/axshell.c, on two windows.
use artyom_x.Base.{
  Bool, ℕ, zero, suc, ◌+◌, ◌%◌, ◌^◌, ◌<◌, ◌≡◌, inl, refl, true, false, Option, none, some, List, [],
  ◌∷◌, arith,
}
use artyom_x.Kheap.Fixture.{roomy}
use artyom_x.Axshell.{
  Window, Desktop, no_window, window_at, mouse_event, surf_at, surf_at_from, surf_focus,
  surf_push_event, covers, later, no_event,
}
use artyom_x.Axshell.Surface.{
  find_unused, surf_alloc, ax_syscall_surface, ax_syscall_commit, ax_send_event_to_active, event,
  no_more, not_found, find_canvas, poll_window, poll_found, push_found,
}
use artyom_x.Axshell.Input.{
  Mouse, hold_window, process_mouse, press, press_window, in_resize_grip, toggled, toggle_maximize,
  after_press, point,
}
use artyom_x.Axshell.Calendar.{days_in_month, day_of_week, next_day, day_of_week-next_day}
use artyom_x.Axshell.Backdrop.{Backdrop, IsBackdrop, Turn, chosen, tick, ticks}
use artyom_x.Axshell.Backdrop.Fade.{ticks-settled}
use artyom_x.Axshell.Queue.{Call, send, poll, answers_of, poll_all, IsBox}
use artyom_x.Axshell.Queue.Delivery.{poll_all-answers}
use artyom_x.Axshell.Topmost.{IsTop, surf_at-IsTop}
use artyom_x.Axshell.Focus.{Raised, surf_focus-Raised}
use artyom_x.Axshell.Geometry.{IsPlaced, hold_window-IsPlaced}

abbrev shown : ℕ → ℕ → ℕ → ℕ → ℕ → Window
shown id x y z canvas = record no_window {
  id = id;
  used = true;
  visible = true;
  x = x;
  y = y;
  w = 200;
  h = 150;
  z = z;
  canvas = canvas;
  dragging = true;
  drag_dx = 20;
  drag_dy = 10;
}

-- Two windows that overlap at (150, 120).
abbrev desktop : Desktop
desktop = record {
  surfaces = shown 0 100 100 1 0x1000 ∷ shown 1 120 80 2 0x2000 ∷ [];
  z_counter = 3;
  active_surface = none;
  scr_w = 1024;
  scr_h = 768;
  heap = roomy;
  memory = λ a. 0;
}

epoch_thursday : day_of_week 1 1 1970 ≡ 4
unfolding day_of_week
epoch_thursday = refl

day_of_week-next_day_example :
    let (d, m, y) = next_day 29 2 2024 in day_of_week d m y ≡ (day_of_week 29 2 2024 + 1) % 7
unfolding days_in_month
day_of_week-next_day_example =
    day_of_week-next_day 29 2 2024 (omega arith) (omega arith) (omega arith) (omega arith)
      (omega arith)

abbrev plain : Backdrop
plain = record {
  wallpaper_index = 2;
  wallpaper_mode = 0;
  photo_count = 0;
  current_photo = 0;
  slideshow_counter = 0;
  wallpaper_fade = 0;
  wallpaper_fade_dir = 1;
  prev_wallpaper_index = 1;
  prev_photo_index = 0;
}

plain-IsBackdrop : IsBackdrop plain
plain-IsBackdrop = record {
  index = omega arith;
  previous = omega arith;
  photo = λ h. omega arith;
  fade = omega arith;
  counter = omega arith;
}

abbrev a_while : List Turn
a_while = tick ∷ (chosen 7 ∷ (tick ∷ (chosen 4294967295 ∷ [])))

ticks-settled_example :
    ((ticks 16 plain).wallpaper_fade_dir ≡ 0) × ((ticks 16 plain).wallpaper_fade ≡ 256)
ticks-settled_example =
    ticks-settled 16 plain (λ e. omega (arith, e)) (inl (refl, omega arith)) (omega arith)

small_z : (j : ℕ) → (window_at desktop.surfaces j).z < 2 ^ 31
small_z zero = omega arith
small_z (suc zero) = omega arith
small_z (suc (suc j)) = omega arith

below_z : (j : ℕ) → (window_at desktop.surfaces j).z < 3
below_z zero = omega arith
below_z (suc zero) = omega arith
below_z (suc (suc j)) = omega arith

surf_at-runs : surf_at 150 120 desktop ≡ some 1
unfolding surf_at_from covers
surf_at-runs = refl

surf_at-IsTop_example : IsTop 150 120 desktop.surfaces (surf_at 150 120 desktop)
surf_at-IsTop_example = surf_at-IsTop 150 120 desktop small_z

surf_focus-Raised_example : Raised 110 120 0 desktop (surf_focus 0 desktop)
unfolding surf_at_from covers
surf_focus-Raised_example =
    surf_focus-Raised 110 120 0 desktop (record { small = omega arith; below = below_z })
      (omega arith) refl

abbrev mouse : Mouse
mouse = record {
  x = 5;
  y = 700;
  prev_x = 0;
  prev_y = 0;
  left = true;
  right = false;
  prev_left = true;
  prev_right = false;
  clicked = false;
  released = false;
}

hold_window-IsPlaced_example :
    IsPlaced desktop (hold_window mouse desktop (window_at desktop.surfaces 0))
hold_window-IsPlaced_example =
    hold_window-IsPlaced mouse desktop (omega arith) (omega arith) (window_at desktop.surfaces 0)
      (record {
        wide = omega arith;
        high = omega arith;
        right = omega arith;
        top = omega arith;
        bottom = omega arith;
        held_x = omega arith;
        held_y = omega arith;
        screen_w = omega arith;
        screen_h = omega arith;
      })

abbrev stands : ℕ → Option ℕ
stands c = find_canvas c desktop.surfaces

empty-IsBox : (j : ℕ) → IsBox (window_at desktop.surfaces j) []
empty-IsBox zero = record {
  storage = refl;
  tail_in = omega arith;
  room = omega arith;
  head_behind = refl;
  holds = tt;
}
empty-IsBox (suc zero) = record {
  storage = refl;
  tail_in = omega arith;
  room = omega arith;
  head_behind = refl;
  holds = tt;
}
empty-IsBox (suc (suc j)) = record {
  storage = refl;
  tail_in = omega arith;
  room = omega arith;
  head_behind = refl;
  holds = tt;
}

abbrev calls : List Call
calls = send 0x1000 (mouse_event 1 2 1) ∷ (poll 0x2000 ∷ (poll 0x1000 ∷ (poll 0x3000 ∷ [])))

poll_all-runs : poll_all calls desktop ≡ no_more ∷ (event (mouse_event 1 2 1) ∷ (not_found ∷ []))
unfolding poll_all find_canvas later push_found poll_found poll_window surf_push_event
poll_all-runs = refl

poll_all-answers_example : poll_all calls desktop ≡ answers_of stands calls (λ c. [])
poll_all-answers_example =
    poll_all-answers stands calls desktop (λ c. [])
      (record { found = λ c. refl; boxes = λ c i e. empty-IsBox i })

-- A click on the contents of the first window, in the columns of the button for the full screen.
abbrev click : Mouse
click = record mouse { x = 155; y = 265; clicked = true; prev_left = false }

abbrev is_maximized : Option Desktop → Bool
is_maximized none = false
is_maximized (some d) = (window_at d.surfaces 0).maximized

click_run : is_maximized (process_mouse click 1 desktop) ≡ true
unfolding process_mouse press press_window in_resize_grip toggled toggle_maximize surf_at_from
    covers surf_focus surf_push_event
click_run = refl

-- The pointer moves over the second window, which gets an event.
abbrev hover : Mouse
hover = record mouse { x = 300; y = 200; left = false; prev_left = false }

abbrev head_of : Option Desktop → ℕ
head_of none = 0
head_of (some d) = (window_at d.surfaces 1).ev_head

hover_run : head_of (process_mouse hover 0 desktop) ≡ 1
unfolding process_mouse after_press point surf_at_from covers surf_push_event
hover_run = refl

-- The table of this desktop is full.
surface_run : (ax_syscall_surface 0 [] 1 1 desktop).0 ≡ 0
unfolding ax_syscall_surface surf_alloc find_unused later
surface_run = refl

commit_run : (ax_syscall_commit 0x2000 desktop).0 ≡ true
unfolding ax_syscall_commit find_canvas later
commit_run = refl

active_run : ax_send_event_to_active no_event desktop ≡ desktop
unfolding ax_send_event_to_active
active_run = refl
