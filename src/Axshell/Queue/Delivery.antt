-- ===== src/Axshell/Queue/Delivery.antt =====
-- Events reach the window of their canvas, in order, and no other.
use artyom_x.Base.{
  ℕ, ◌<◌, ◌≡◌, ◌≢◌, inl, inr, refl, sym, ap, ◌∙◌, true, false, Option, none, some, List, [], ◌∷◌,
  if◌then◌else◌, Bool-cases, Option-cases, arith, set, length, length-set, get_or-set_ne,
  get_or-set_self, ◌==◌, ℕ_discrete,
}
use mathlib.Core.Option.{some-injective, some-ne-none}
use artyom_x.Axshell.{Event, Window, Desktop, no_window, window_at, set_window, surf_push_event}
use artyom_x.Axshell.Surface.{
  not_found, is_canvas, find_canvas, poll_window, poll_found, push_found, ax_syscall_poll,
  ax_send_event_to_canvas,
}
use artyom_x.Axshell.Find.{surf_push_event-keeps, find_canvas-has, find_canvas-alike}
use artyom_x.Axshell.Queue.{
  Pending, post, take_first, Call, send, poll, Boxes, put_box, is_open, answers_of, poll_all, IsBox,
  surf_push_event-IsBox, poll_window-first, poll_window-IsBox,
}

-- Each canvas that has a window stands where `place` says, and its window holds the canvas' events.
pub record Delivers (place : ℕ → Option ℕ) (d : Desktop) (b : Boxes) : Type 0 where
  pub found : (c : ℕ) → find_canvas c d.surfaces ≡ place c
  pub boxes : (c i : ℕ) → place c ≡ some i → IsBox (window_at d.surfaces i) (b c)

-- Canvases with one window are one.
same_canvas : (c c' : ℕ) (w : Window) → is_canvas c w ≡ true → is_canvas c' w ≡ true → c ≡ c'
same_canvas c c' w a b = ground (arith, a, b)

-- A write that keeps a canvas keeps all.
set-alike :
    (c : ℕ) (ws : List Window) (i j : ℕ) (w : Window)
    → i < length ws
    → is_canvas c w ≡ is_canvas c (window_at ws i)
    → is_canvas c (window_at (set ws i w) j) ≡ is_canvas c (window_at ws j)
set-alike c ws i j w inside alike = elim (ℕ_discrete i j) [
  | yes same ↦ rw (← same) (ap (is_canvas c) (get_or-set_self ws i w no_window inside) ∙ alike)
  | no other ↦ ap (is_canvas c) (get_or-set_ne ws i j w no_window other)
]

module _ {place : ℕ → Option ℕ} {d : Desktop} {b : Boxes} (v : Delivers place d b) where
  -- A canvas without a window.
  missing-Delivers : (c : ℕ) (q : Pending) → place c ≡ none → Delivers place d (put_box c q b)
  missing-Delivers c q none_there = record {
    found = v.found;
    boxes = λ c' i e. elim (ℕ_discrete c' c) [
      | yes same ↦ absurd (some-ne-none i (sym e ∙ ap place same ∙ none_there))
      | no other ↦ let o : (c' == c) ≡ false = ground (arith, other) in rw o (v.boxes c' i e)
    ];
  }

  update-Delivers :
      (c i : ℕ) (q : Pending) (w : Window)
      → place c ≡ some i
      → ((c' : ℕ) → is_canvas c' w ≡ is_canvas c' (window_at d.surfaces i))
      → IsBox w q
      → Delivers place (set_window i w d) (put_box c q b)
  update-Delivers c i q w e alike box =
      let hit = find_canvas-has c d.surfaces (v.found c ∙ e) in
      record {
        found = λ c'.
            find_canvas-alike c' (set d.surfaces i w) d.surfaces (length-set d.surfaces i w)
              (λ j. set-alike c' d.surfaces i j w hit.0 (alike c'))
            ∙ v.found c';
        boxes = λ c' k f. elim (ℕ_discrete c' c) [
          | yes same ↦
              let here : i ≡ k = some-injective i k (sym e ∙ ap place (sym same) ∙ f) in
              let t : (c' == c) ≡ true = ground (arith, same) in
              simp (t, ← here, get_or-set_self d.surfaces i w no_window hit.0) box
          | no other ↦
              let o : (c' == c) ≡ false = ground (arith, other) in
              let hit' = find_canvas-has c' d.surfaces (v.found c' ∙ f) in
              let apart : i ≢ k =
                λ e'. other (same_canvas c' c (window_at d.surfaces k) hit'.1 (rw (← e') hit.1)) in
              simp (o, get_or-set_ne d.surfaces i k w no_window apart) (v.boxes c' k f)
        ];
      }

poll_window-is_canvas : (c : ℕ) (w : Window) → is_canvas c (poll_window w).1 ≡ is_canvas c w
unfolding poll_window
poll_window-is_canvas c w = elim (Bool-cases (w.ev_head == w.ev_tail)) [
  | inl empty ↦ simp empty refl
  | inr filled ↦ simp filled refl
]

-- Does a canvas have a window?
is_used : (c : ℕ) (w : Window) → is_canvas c w ≡ true → w.used ≡ true
is_used c w e = ground (arith, e)

module _ {place : ℕ → Option ℕ} {d : Desktop} {b : Boxes} (v : Delivers place d b) where
  send-Delivers :
      (c : ℕ) (ev : Event)
      → Delivers place (ax_send_event_to_canvas c ev d) (put_box c (post ev (b c)) b)
  unfolding push_found
  send-Delivers c ev = elim (Option-cases (place c)) [
    | inl nowhere ↦ rw (v.found c, nowhere) (missing-Delivers v c (post ev (b c)) nowhere)
    | inr (i, e) ↦
        let hit = find_canvas-has c d.surfaces (v.found c ∙ e) in
        let w = window_at d.surfaces i in
        rw (v.found c, e)
          (update-Delivers v c i (post ev (b c)) (surf_push_event ev w) e
            (λ c'. surf_push_event-keeps (is_canvas c') ev w (λ queue head. refl))
            (surf_push_event-IsBox (v.boxes c i e) ev (is_used c w hit.1)))
  ]

  poll-Delivers :
      (c : ℕ) → Delivers place (ax_syscall_poll c d).1 (put_box c (take_first (b c)).1 b)
  unfolding poll_found
  poll-Delivers c = elim (Option-cases (place c)) [
    | inl nowhere ↦ rw (v.found c, nowhere) (missing-Delivers v c (take_first (b c)).1 nowhere)
    | inr (i, e) ↦
        let w = window_at d.surfaces i in
        rw (v.found c, e)
          (update-Delivers v c i (take_first (b c)).1 (poll_window w).1 e
            (λ c'. poll_window-is_canvas c' w) (poll_window-IsBox (b c) (v.boxes c i e)))
  ]

  poll-answer :
      (c : ℕ)
      → (ax_syscall_poll c d).0 ≡ (if is_open (place c) then (take_first (b c)).0 else not_found)
  unfolding poll_found
  poll-answer c = elim (Option-cases (place c)) [
    | inl nowhere ↦ rw (v.found c, nowhere)
    | inr (i, e) ↦ rw (v.found c, e) (poll_window-first (b c) (v.boxes c i e))
  ]

-- Whatever is sent to and polled from the canvases in whatever order, the polls of a canvas answer the
-- events that were sent to it, in order and each once, but those that came when 15 were waiting; polls
-- of a canvas without a window answer -1, and an event for one canvas never comes from another.
pub poll_all-answers :
    (place : ℕ → Option ℕ) (calls : List Call) (d : Desktop) (b : Boxes)
    → Delivers place d b
    → poll_all calls d ≡ answers_of place calls b
unfolding poll_all answers_of
poll_all-answers place [] d b v = refl
poll_all-answers place (send c ev ∷ calls) d b v =
    poll_all-answers place calls (ax_send_event_to_canvas c ev d) (put_box c (post ev (b c)) b)
      (send-Delivers v c ev)
poll_all-answers place (poll c ∷ calls) d b v = rw (poll-answer v c) (
    ap (λ rest. (if is_open (place c) then (take_first (b c)).0 else not_found) ∷ rest)
      (poll_all-answers place calls (ax_syscall_poll c d).1 (put_box c (take_first (b c)).1 b)
        (poll-Delivers v c)))
