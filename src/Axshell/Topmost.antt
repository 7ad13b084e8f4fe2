-- ===== src/Axshell/Topmost.antt =====
-- The window below a point, `surf_at` of kernel/axshell.c, and the focus.
use artyom_x.Base.{
  ℕ, zero, suc, ◌+◌, ◌-◌, ◌^◌, ◌≤◌, ◌<◌, ◌≡◌, ◌≢◌, ◌&&◌, inl, inr, refl, ap, subst, ◌∙◌, true,
  false, Option, none, some, List, [], ◌∷◌, if◌then◌else◌, Bool-cases, arith, length, length-set,
  map, get_or-set_ne, get_or-set_self,
}
use artyom_x.Gfx.{word, int_lt}
use artyom_x.Axshell.{
  Window, Desktop, no_window, window_at, covers, surf_at, surf_at_from, surf_focus, unfocused,
}

-- A free slot covers no point.
nothing_covers : (x y : ℕ) → covers x y no_window ≢ true
unfolding covers
nothing_covers x y h =
    let bad : 0 ≡ 1 = ap {B = ℕ} (λ b. if b then 1 else 0) h in absurd (omega (arith, bad))

-- The order of ints, as one of numbers.
abbrev rank : ℕ → ℕ
rank z = word (z + 2 ^ 31)

-- How the loop over `ws` from window `i` on ends.
data Best (x y i : ℕ) (ws : List Window) (best : Option ℕ) (bestz : ℕ) : Option ℕ → Type 0 where
  kept :
      ((j : ℕ) → covers x y (window_at ws j) ≡ true → rank (window_at ws j).z ≤ rank bestz)
      → Best x y i ws best bestz best
  found :
      (k : ℕ)
      → k < length ws
      → covers x y (window_at ws k) ≡ true
      → rank bestz < rank (window_at ws k).z
      → ((j : ℕ)
          → covers x y (window_at ws j) ≡ true
          → rank (window_at ws j).z ≤ rank (window_at ws k).z)
      → Best x y i ws best bestz (some (i + k))

-- What holds of the first window and of the others.
either_at :
    (x y : ℕ) (w : Window) (ws : List Window) (P : ℕ → Type 0)
    → (covers x y w ≡ true → P w.z)
    → ((j : ℕ) → covers x y (window_at ws j) ≡ true → P (window_at ws j).z)
    → (j : ℕ) → covers x y (window_at (w ∷ ws) j) ≡ true
    → P (window_at (w ∷ ws) j).z
either_at x y w ws P a b zero = a
either_at x y w ws P a b (suc j) = b j

module _ {x y i : ℕ} {w : Window} {ws : List Window} {best : Option ℕ} {bestz : ℕ} where
  -- A window that is better than the best so far.
  better :
      {r : Option ℕ}
      → covers x y w ≡ true
      → rank bestz < rank w.z
      → Best x y (i + 1) ws (some i) w.z r
      → Best x y i (w ∷ ws) best bestz r
  better c l (kept h) =
      let here : i + 0 ≡ i = omega arith in
      subst (λ n. Best x y i (w ∷ ws) best bestz (some n)) here
        (found 0 (omega arith) c l
          (either_at x y w ws (λ z. rank z ≤ rank w.z) (λ h'. omega arith) h))
  better c l (found k inside has above top) =
      let there : i + suc k ≡ i + 1 + k = omega arith in
      subst (λ n. Best x y i (w ∷ ws) best bestz (some n)) there
        (found (suc k) (omega arith) has (omega (arith, l, above)) (
          either_at x y w ws (λ z. rank z ≤ rank (window_at ws k).z) (λ h. omega (arith, above))
            top))

  -- One that is not.
  not_better :
      {r : Option ℕ}
      → (covers x y w ≡ true → rank w.z ≤ rank bestz)
      → Best x y (i + 1) ws best bestz r
      → Best x y i (w ∷ ws) best bestz r
  not_better c (kept h) = kept (either_at x y w ws (λ z. rank z ≤ rank bestz) c h)
  not_better c (found k inside has above top) =
      let there : i + suc k ≡ i + 1 + k = omega arith in
      subst (λ n. Best x y i (w ∷ ws) best bestz (some n)) there
        (found (suc k) (omega arith) has above (
          either_at x y w ws (λ z. rank z ≤ rank (window_at ws k).z)
            (λ h. omega (arith, above, c h)) top))

surf_at_from-Best :
    (x y i : ℕ) (ws : List Window) (best : Option ℕ) (bestz : ℕ)
    → Best x y i ws best bestz (surf_at_from x y i ws best bestz)
unfolding surf_at_from
surf_at_from-Best x y i [] best bestz = kept (λ j h. absurd (nothing_covers x y h))
surf_at_from-Best x y i (w ∷ ws) best bestz = elim (Bool-cases (covers x y w && int_lt bestz w.z)) [
  | inl yes_here ↦ rw yes_here (
      better (ground (arith, yes_here)) (ground (arith, yes_here))
        (surf_at_from-Best x y (i + 1) ws (some i) w.z))
  | inr not_here ↦
      rw not_here (
        not_better (λ c. ground (arith, c, not_here)) (surf_at_from-Best x y (i + 1) ws best bestz))
]

-- The answer of the search.
pub data IsTop (x y : ℕ) (ws : List Window) : Option ℕ → Type 0 where
  nothing : ((j : ℕ) → covers x y (window_at ws j) ≡ false) → IsTop x y ws none
  topmost :
      (i : ℕ)
      → i < length ws
      → covers x y (window_at ws i) ≡ true
      → ((j : ℕ) → covers x y (window_at ws j) ≡ true → (window_at ws j).z ≤ (window_at ws i).z)
      → IsTop x y ws (some i)

-- Where no window has a negative `z`, the search answers a window that covers the point and above which
-- no other does, and -1 exactly where no window covers it.
pub surf_at-IsTop :
    (x y : ℕ) (d : Desktop)
    → ((j : ℕ) → (window_at d.surfaces j).z < 2 ^ 31)
    → IsTop x y d.surfaces (surf_at x y d)
surf_at-IsTop x y d small = best-IsTop (surf_at_from-Best x y 0 d.surfaces none (2 ^ 32 - 1))
  where
    best-IsTop : {r : Option ℕ} → Best x y 0 d.surfaces none (2 ^ 32 - 1) r → IsTop x y d.surfaces r
    best-IsTop (kept h) = nothing (λ j. elim (Bool-cases (covers x y (window_at d.surfaces j))) [
      | inl c ↦ absurd (omega (arith, h j c, small j))
      | inr free ↦ free
    ])
    best-IsTop (found k inside has above top) =
        let here : 0 + k ≡ k = omega arith in
        rw here (topmost k inside has (λ j c. omega (arith, top j c, small j, small k)))

pub window_at-unfocused :
    (ws : List Window) (j : ℕ) → window_at (map unfocused ws) j ≡ unfocused (window_at ws j)
window_at-unfocused [] j = refl
window_at-unfocused (w ∷ ws) zero = refl
window_at-unfocused (w ∷ ws) (suc j) = window_at-unfocused ws j

length-unfocused : (ws : List Window) → length (map unfocused ws) ≡ length ws
length-unfocused [] = refl
length-unfocused (w ∷ ws) = ap suc (length-unfocused ws)

-- What the focus does to the table.
module _ (d : Desktop) (i : ℕ) (inside : i < length d.surfaces) where
  abbrev pub focused_window : Window
  focused_window = record (unfocused (window_at d.surfaces i)) { focused = true; z = d.z_counter }

  pub surf_focus_self : window_at (surf_focus i d).surfaces i ≡ focused_window
  unfolding surf_focus
  surf_focus_self = rw (window_at-unfocused d.surfaces i) (
      get_or-set_self (map unfocused d.surfaces) i focused_window no_window
        (omega (arith, length-unfocused d.surfaces)))

  pub surf_focus-length : length (surf_focus i d).surfaces ≡ length d.surfaces
  unfolding surf_focus
  surf_focus-length = length-set (map unfocused d.surfaces) i _ ∙ length-unfocused d.surfaces

  pub surf_focus-others :
      (j : ℕ) → i ≢ j → window_at (surf_focus i d).surfaces j ≡ unfocused (window_at d.surfaces j)
  unfolding surf_focus
  surf_focus-others j apart =
      get_or-set_ne (map unfocused d.surfaces) i j _ no_window apart
      ∙ window_at-unfocused d.surfaces j
