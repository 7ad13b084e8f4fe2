-- ===== src/Axshell/Find.antt =====
-- The windows that the searches of kernel/axshell.c find.
use artyom_x.Base.{
  ℕ, suc, ◌+◌, ◌%◌, ◌<◌, ◌≡◌, inl, inr, refl, Bool, true, false, not, some, List, [], ◌∷◌,
  if◌then◌else◌, Bool-cases, Option-cases, arith, set, length, ◌==◌,
}
use artyom_x.Axshell.{Event, Window, window_at, later, surf_push_event}
use artyom_x.Axshell.Surface.{is_canvas, find_canvas}

-- The window that the search finds has the canvas.
pub find_canvas-has :
    (c : ℕ) (ws : List Window) {i : ℕ}
    → find_canvas c ws ≡ some i
    → (i < length ws) × (is_canvas c (window_at ws i) ≡ true)
unfolding find_canvas later
find_canvas-has c [] {i} = λ e. cc
find_canvas-has c (w ∷ ws) {i} = elim (Bool-cases (is_canvas c w)) [
  | inl has ↦ rw has (λ e. let here : 0 ≡ i = ground arith in rw (← here) (omega arith, has))
  | inr lacks ↦ rw lacks (elim (Option-cases (find_canvas c ws)) [
    | inl miss ↦ rw miss (λ e. cc)
    | inr (k, hit) ↦ rw hit (λ e.
        let here : suc k ≡ i = ground arith in
        let found = find_canvas-has c ws hit in rw (← here) (omega (arith, found.0), found.1))
  ])
]

-- The search sees only what it asks of each window.
pub find_canvas-alike :
    (c : ℕ) (ws vs : List Window)
    → length ws ≡ length vs
    → ((j : ℕ) → is_canvas c (window_at ws j) ≡ is_canvas c (window_at vs j))
    → find_canvas c ws ≡ find_canvas c vs
unfolding find_canvas
find_canvas-alike c [] [] l h = refl
find_canvas-alike c [] (v ∷ vs) l h = absurd (omega (arith, l))
find_canvas-alike c (w ∷ ws) [] l h = absurd (omega (arith, l))
find_canvas-alike c (w ∷ ws) (v ∷ vs) l h =
    rw (h 0, find_canvas-alike c ws vs (omega (arith, l)) (λ j. h (suc j)))

-- Two tests in front of a change.
keeps_through {ℓ} :
    {A : Type ℓ} (a b : Bool) (x y : Window) (f : Window → A)
    → f y ≡ f x
    → f (if a then x else if b then x else y) ≡ f x
keeps_through true b x y f e = refl
keeps_through false true x y f e = refl
keeps_through false false x y f e = e

-- What a push leaves alone.
pub surf_push_event-keeps {ℓ} :
    {A : Type ℓ} (f : Window → A) (ev : Event) (w : Window)
    → ((queue : List Event) (head : ℕ) → f (record w { ev_queue = queue; ev_head = head }) ≡ f w)
    → f (surf_push_event ev w) ≡ f w
unfolding surf_push_event
surf_push_event-keeps f ev w same =
    let next = (w.ev_head + 1) % 16 in
    keeps_through (not w.used) (next == w.ev_tail) w _ f (same (set w.ev_queue w.ev_head ev) next)
