-- ===== src/Axshell/Focus.antt =====
-- What the focus of kernel/axshell.c gives a window.
use artyom_x.Base.{
  ℕ, ◌+◌, ◌^◌, ◌<◌, ◌≡◌, ◌≢◌, refl, sym, ap, ◌∙◌, true, false, Option, some, arith, length,
  ℕ_discrete, if◌then◌else◌,
}
use mathlib.Core.Option.{some-injective, some-ne-none}
use artyom_x.Gfx.{word}
use artyom_x.Axshell.{Desktop, window_at, covers, surf_at, surf_focus}
use artyom_x.Axshell.Topmost.{
  IsTop, nothing, topmost, surf_at-IsTop, surf_focus_self, surf_focus-others, surf_focus-length,
  window_at-unfocused,
}

-- Every window lies below the counter that the next focus takes.
pub record IsStack (d : Desktop) : Type 0 where
  pub small : d.z_counter < 2 ^ 31
  pub below : (j : ℕ) → (window_at d.surfaces j).z < d.z_counter

-- Window `i` of `d'` is on top of all and the only one with the focus. Of that window only the flag and
-- the height have changed, of any other one only the flag, and of the rest of the desktop only the
-- counter and the active window.
pub record Raised (x y i : ℕ) (d d' : Desktop) : Type 0 where
  pub stack : IsStack d'
  pub on_top : (j : ℕ) → j ≢ i → (window_at d'.surfaces j).z < (window_at d'.surfaces i).z
  pub focused : (window_at d'.surfaces i).focused ≡ true
  pub alone : (j : ℕ) → j ≢ i → (window_at d'.surfaces j).focused ≡ false
  pub active : d'.active_surface ≡ some (window_at d.surfaces i).id
  pub hit : surf_at x y d' ≡ some i
  pub same_window :
      window_at d'.surfaces i ≡ record (window_at d.surfaces i) { focused = true; z = d.z_counter }
  pub same_others :
      (j : ℕ)
      → j ≢ i
      → window_at d'.surfaces j ≡ record (window_at d.surfaces j) { focused = false }
  pub same_length : length d'.surfaces ≡ length d.surfaces
  pub same_rest : d' ≡ record d {
    surfaces = d'.surfaces;
    z_counter = d.z_counter + 1;
    active_surface = d'.active_surface;
  }

surf_at-inside :
    (x y : ℕ) (d : Desktop) {i : ℕ}
    → ((j : ℕ) → (window_at d.surfaces j).z < 2 ^ 31)
    → surf_at x y d ≡ some i
    → (i < length d.surfaces) × (covers x y (window_at d.surfaces i) ≡ true)
surf_at-inside x y d {i} small e = of (surf_at-IsTop x y d small) e
  where
    of :
        {r : Option ℕ}
        → IsTop x y d.surfaces r
        → r ≡ some i
        → (i < length d.surfaces) × (covers x y (window_at d.surfaces i) ≡ true)
    of (nothing none_there) e' = absurd (some-ne-none i (sym e'))
    of (topmost k inside has top) e' =
        let here : k ≡ i = some-injective k i e' in rw (← here) (inside, has)

-- A window that covers the point and lies above all others is the answer.
surf_at-on_top :
    (x y i : ℕ) (d : Desktop)
    → ((j : ℕ) → (window_at d.surfaces j).z < 2 ^ 31)
    → covers x y (window_at d.surfaces i) ≡ true
    → ((j : ℕ) → j ≢ i → (window_at d.surfaces j).z < (window_at d.surfaces i).z)
    → surf_at x y d ≡ some i
surf_at-on_top x y i d small has above = of (surf_at-IsTop x y d small)
  where
    of : {r : Option ℕ} → IsTop x y d.surfaces r → r ≡ some i
    of (nothing none_there) =
        absurd (omega (arith, ap {B = ℕ} (λ b. if b then 1 else 0) (sym has ∙ none_there i)))
    of (topmost k inside has' top) = elim (ℕ_discrete k i) [
      | yes same ↦ ap some same
      | no other ↦ absurd (omega (arith, above k other, top i has))
    ]

-- `surf_focus` of a window that the search finds at a point raises it: it is the only one with the
-- focus, it lies above every other window, and the search finds it at the point again. Of that window
-- only the flag and the height change, of any other one only the flag, and of the rest of the desktop
-- only the counter and the active window.
pub surf_focus-Raised :
    (x y i : ℕ) (d : Desktop)
    → IsStack d
    → d.z_counter + 1 < 2 ^ 31
    → surf_at x y d ≡ some i
    → Raised x y i d (surf_focus i d)
unfolding surf_focus covers
surf_focus-Raised x y i d v room e =
    let found = surf_at-inside x y d (λ j. omega (arith, v.small, v.below j)) e in
    let d' = surf_focus i d in
    let self = surf_focus_self d i found.0 in
    let others = surf_focus-others d i found.0 in
    let z_self : (window_at d'.surfaces i).z ≡ d.z_counter = ap (λ w. w.z) self in
    let z_others : (j : ℕ) → j ≢ i → (window_at d'.surfaces j).z ≡ (window_at d.surfaces j).z =
      λ j apart. ap (λ w. w.z) (others j (λ s. apart (sym s))) in
    let counted : word (d.z_counter + 1) ≡ d.z_counter + 1 = omega (arith, room) in
    let above : (j : ℕ) → j ≢ i → (window_at d'.surfaces j).z < (window_at d'.surfaces i).z =
      λ j apart. omega (arith, z_self, z_others j apart, v.below j) in
    let below : (j : ℕ) → (window_at d'.surfaces j).z < d.z_counter + 1 = λ j.
      elim (ℕ_discrete j i) [
        | yes same ↦ rw same (omega (arith, z_self))
        | no apart ↦ omega (arith, z_others j apart, v.below j)
      ] in
    record {
      stack = record { small = omega (arith, room); below = rw counted below };
      on_top = above;
      focused = ap (λ w. w.focused) self;
      alone = λ j apart. ap (λ w. w.focused) (others j (λ s. apart (sym s)));
      active = ap (λ w. some w.id) (window_at-unfocused d.surfaces i);
      hit =
          surf_at-on_top x y i d' (λ j. omega (arith, room, below j))
            (ap (covers x y) self ∙ found.1) above;
      same_window = self;
      same_others = λ j apart. others j (λ s. apart (sym s));
      same_length = surf_focus-length d i found.0;
      same_rest = rw counted refl;
    }
