-- ===== src/Axshell/Geometry.antt =====
-- Where the mouse may put a window, in kernel/axshell.c.
use artyom_x.Base.{ℕ, ◌+◌, ◌-◌, ◌^◌, ◌≤◌, ◌<◌, ◌≡◌, refl, if◌then◌else◌, elim_if, arith, ltb, not}
use artyom_x.Gfx.{word, int_lt, int_sub}
use artyom_x.Axshell.{Window, Desktop, Event, surf_push_event, resize_event}
use artyom_x.Axshell.Find.{surf_push_event-keeps}
use artyom_x.Axshell.Surface.{at_least}
use artyom_x.Axshell.Input.{Mouse, drag_window, resize_window, hold_window}

-- Ints that are not negative.
int_lt-small : (a b : ℕ) → a < 2 ^ 31 → b < 2 ^ 31 → int_lt a b ≡ ltb a b
int_lt-small a b p q = ground arith

int_sub-small : (a b : ℕ) → b ≤ a → a < 2 ^ 31 → int_sub a b ≡ a - b
int_sub-small a b p q = omega arith

at_least-sub :
    (low a b : ℕ)
    → low < 2 ^ 31
    → a < 2 ^ 31
    → b < 2 ^ 31
    → at_least low (int_sub a b) ≡ (if ltb (a - b) low then low else a - b)
at_least-sub low a b p q r = ground arith

moved_bounds :
    (low a b : ℕ)
    → low < 2 ^ 16
    → a < 2 ^ 16
    → b < 2 ^ 31
    → (low ≤ at_least low (int_sub a b)) × (at_least low (int_sub a b) < 2 ^ 16)
moved_bounds low a b p q r =
    rw (at_least-sub low a b (omega arith) (omega arith) r) (ground arith, ground arith)

-- The step back from the far edge.
abbrev stepped : ℕ → ℕ → ℕ → ℕ
stepped limit size a = if int_lt limit (word (a + size)) then int_sub limit size else a

stepped_value :
    (limit size a : ℕ)
    → limit < 2 ^ 16
    → size ≤ limit
    → a < 2 ^ 16
    → stepped limit size a ≡ (if ltb limit (a + size) then limit - size else a)
stepped_value limit size a p q r =
    let sum : word (a + size) ≡ a + size = omega arith in
    rw (
      sum,
      int_lt-small limit (a + size) (omega arith) (omega arith),
      int_sub-small limit size q (omega arith),
    )

at_least-low : (low a : ℕ) → low ≤ a → a < 2 ^ 31 → at_least low a ≡ a
at_least-low low a p q = ground arith

stepped_bounds :
    (low limit size a : ℕ)
    → limit < 2 ^ 16
    → low + size ≤ limit
    → low ≤ a
    → a < 2 ^ 16
    → (low ≤ stepped limit size a) × (stepped limit size a + size ≤ limit)
stepped_bounds low limit size a p q r s =
    rw (stepped_value limit size a p (omega arith) s) (ground arith, ground arith)

-- A window between the menu bar and the dock, large enough, held somewhere on the screen.
pub record IsPlaced (d : Desktop) (w : Window) : Type 0 where
  pub wide : 160 ≤ w.w
  pub high : 100 ≤ w.h
  pub right : w.x + w.w ≤ d.scr_w
  pub top : 24 ≤ w.y
  pub bottom : w.y + w.h + 28 ≤ d.scr_h - 58
  pub held_x : w.drag_dx < 2 ^ 16
  pub held_y : w.drag_dy < 2 ^ 16
  pub screen_w : d.scr_w < 2 ^ 16
  pub screen_h : d.scr_h < 2 ^ 16

-- The vertical limit.
bottom_of : (height : ℕ) → height < 2 ^ 16 → 58 ≤ height → int_sub height 58 ≡ height - 58
bottom_of height p q = omega arith

y_value :
    (height h a : ℕ)
    → height < 2 ^ 16
    → 24 + (h + 28) ≤ height - 58
    → 24 ≤ a
    → a < 2 ^ 16
    → at_least 24 (
        if int_lt (int_sub height 58) (word (a + h + 28))
        then int_sub (int_sub height 58) (word (h + 28))
        else a)
      ≡ stepped (height - 58) (h + 28) a
y_value height h a p q r s =
    let size : word (h + 28) ≡ h + 28 = omega arith in
    let sum : a + h + 28 ≡ a + (h + 28) = omega arith in
    let v = stepped_value (height - 58) (h + 28) a (omega arith) (omega arith) s in
    let b = stepped_bounds 24 (height - 58) (h + 28) a (omega arith) q r s in
    rw (bottom_of height p (omega arith), size, sum)
      (at_least-low 24 (stepped (height - 58) (h + 28) a) b.0 (omega (arith, b.1)))

-- A size that ends at the edge.
abbrev sized : ℕ → ℕ → ℕ → ℕ
sized edge p s = if int_lt edge (word (p + s)) then int_sub edge p else s

sized_value :
    (edge p s : ℕ)
    → edge < 2 ^ 16
    → p ≤ edge
    → s < 2 ^ 16
    → sized edge p s ≡ (if ltb edge (p + s) then edge - p else s)
sized_value edge p s a b c =
    let sum : word (p + s) ≡ p + s = omega arith in
    rw (
      sum,
      int_lt-small edge (p + s) (omega arith) (omega arith),
      int_sub-small edge p b (omega arith),
    )

sized_bounds :
    (low edge p s : ℕ)
    → edge < 2 ^ 16
    → p + low ≤ edge
    → low ≤ s
    → s < 2 ^ 16
    → (low ≤ sized edge p s) × (p + sized edge p s ≤ edge)
sized_bounds low edge p s a b c e =
    rw (sized_value edge p s a (omega arith) e) (ground arith, ground arith)

h_value :
    (height y my : ℕ)
    → height < 2 ^ 16
    → y + 28 + 100 ≤ height - 58
    → at_least 100 (int_sub my (y + 28)) < 2 ^ 16
    → let hh = at_least 100 (int_sub my (word (y + 28))) in
      (if int_lt (int_sub height 58) (word (y + hh + 28))
        then int_sub (int_sub height 58) (word (y + 28))
        else hh)
      ≡ sized (height - 58) (y + 28) (at_least 100 (int_sub my (y + 28)))
h_value height y my p q r =
    let size : word (y + 28) ≡ y + 28 = omega arith in
    let hh = at_least 100 (int_sub my (y + 28)) in
    let sum : y + hh + 28 ≡ y + 28 + hh = omega arith in
    rw (bottom_of height p (omega arith), size, sum)

-- An event moves no window.
surf_push_event-IsPlaced :
    (ev : Event) {d : Desktop} {w : Window} → IsPlaced d w → IsPlaced d (surf_push_event ev w)
surf_push_event-IsPlaced ev {d} {w} v =
    let x = surf_push_event-keeps (λ u. u.x) ev w (λ q h. refl) in
    let y = surf_push_event-keeps (λ u. u.y) ev w (λ q h. refl) in
    let width = surf_push_event-keeps (λ u. u.w) ev w (λ q h. refl) in
    let height = surf_push_event-keeps (λ u. u.h) ev w (λ q h. refl) in
    record {
      wide = rw width v.wide;
      high = rw height v.high;
      right = rw (x, width) v.right;
      top = rw y v.top;
      bottom = rw (y, height) v.bottom;
      held_x = rw (surf_push_event-keeps (λ u. u.drag_dx) ev w (λ q h. refl)) v.held_x;
      held_y = rw (surf_push_event-keeps (λ u. u.drag_dy) ev w (λ q h. refl)) v.held_y;
      screen_w = v.screen_w;
      screen_h = v.screen_h;
    }

module _ (m : Mouse) (d : Desktop) (mx : m.x < d.scr_w) (my : m.y < d.scr_h) where
  pub drag_window-IsPlaced : {w : Window} → IsPlaced d w → IsPlaced d (drag_window m d w)
  unfolding drag_window
  drag_window-IsPlaced {w} v =
      let bx =
        moved_bounds 0 m.x w.drag_dx (omega arith) (omega (arith, v.screen_w, mx))
          (omega (arith, v.held_x)) in
      let by =
        moved_bounds 24 m.y w.drag_dy (omega arith) (omega (arith, v.screen_h, my))
          (omega (arith, v.held_y)) in
      let y =
        y_value d.scr_h w.h (at_least 24 (int_sub m.y w.drag_dy)) v.screen_h
          (omega (arith, v.bottom, v.top)) by.0 by.1 in
      let sx =
        stepped_bounds 0 d.scr_w w.w (at_least 0 (int_sub m.x w.drag_dx)) v.screen_w
          (omega (arith, v.right)) bx.0 bx.1 in
      let sy =
        stepped_bounds 24 (d.scr_h - 58) (w.h + 28) (at_least 24 (int_sub m.y w.drag_dy))
          (omega (arith, v.screen_h)) (omega (arith, v.bottom, v.top)) by.0 by.1 in
      record {
        wide = v.wide;
        high = v.high;
        right = sx.1;
        top = rw y sy.0;
        bottom = rw y (omega (arith, sy.1));
        held_x = v.held_x;
        held_y = v.held_y;
        screen_w = v.screen_w;
        screen_h = v.screen_h;
      }

  pub resize_window-IsPlaced : {w : Window} → IsPlaced d w → IsPlaced d (resize_window m d w)
  unfolding resize_window
  resize_window-IsPlaced {w} v =
      let bw =
        moved_bounds 160 m.x w.x (omega arith) (omega (arith, v.screen_w, mx))
          (omega (arith, v.right, v.screen_w)) in
      let bh =
        moved_bounds 100 m.y (w.y + 28) (omega arith) (omega (arith, v.screen_h, my))
          (omega (arith, v.bottom, v.screen_h)) in
      let sw =
        sized_bounds 160 d.scr_w w.x (at_least 160 (int_sub m.x w.x)) v.screen_w
          (omega (arith, v.right, v.wide)) bw.0 bw.1 in
      let sh =
        sized_bounds 100 (d.scr_h - 58) (w.y + 28) (at_least 100 (int_sub m.y (w.y + 28)))
          (omega (arith, v.screen_h)) (omega (arith, v.bottom, v.high)) bh.0 bh.1 in
      let h = h_value d.scr_h w.y m.y v.screen_h (omega (arith, v.bottom, v.high)) bh.1 in
      surf_push_event-IsPlaced (resize_event _ _) (record {
        wide = sw.0;
        high = rw h sh.0;
        right = sw.1;
        top = v.top;
        bottom = rw h (omega (arith, sh.1));
        held_x = v.held_x;
        held_y = v.held_y;
        screen_w = v.screen_w;
        screen_h = v.screen_h;
      })

  -- While the button is held, a window that lies between the menu bar and the dock and is large enough stays
  -- so, whether it is dragged, resized or both, wherever on the screen the mouse goes.
  pub hold_window-IsPlaced : (w : Window) → IsPlaced d w → IsPlaced d (hold_window m d w)
  unfolding hold_window
  hold_window-IsPlaced w v =
      elim_if (IsPlaced d) (not w.used) (λ free. v)
        (λ taken.
          let u = elim_if (IsPlaced d) w.dragging (λ e. drag_window-IsPlaced v) (λ e. v) in
          elim_if (IsPlaced d) (if w.dragging then drag_window m d w else w).resizing
            (λ e. resize_window-IsPlaced u) (λ e. u))
