-- ===== src/Axshell/Queue.antt =====
-- What the event queues of kernel/axshell.c promise: each canvas has a line of at most 15 events, to
-- which events are sent and from which polls take them, whatever the other windows do.
pub mod Delivery
use artyom_x.Base.{
  ℕ, zero, suc, ◌+◌, ◌-◌, ◌*◌, ◌/◌, ◌%◌, ◌^◌, ◌≤◌, ◌<◌, ◌≡◌, ◌≢◌, ◌⊎◌, inl, inr, refl, sym, ap, ◌∙◌,
  Bool, true, false, not, Option, none, some, List, [], ◌∷◌, ◌++◌, if◌then◌else◌, Bool-cases,
  Option-cases, arith, set, length, length-set, length-append, get_or-set, get_or-set_ne,
  get_or-set_self, get_or, ◌==◌, ltb, ltb→lt, ℕ_discrete,
}
use artyom_x.Axshell.{
  Event, Window, Desktop, no_event, no_window, window_at, set_window, surf_push_event,
}
use artyom_x.Axshell.Surface.{
  Polled, event, no_more, not_found, is_canvas, find_canvas, poll_window, poll_found, push_found,
  ax_syscall_poll, ax_send_event_to_canvas,
}
use artyom_x.Axshell.Find.{find_canvas-has, find_canvas-alike}

abbrev pub Pending : Type 0
Pending = List Event

unfoldable pub post : Event → Pending → Pending
post ev q = if ltb (length q) 15 then q ++ (ev ∷ []) else q

unfoldable pub take_first : Pending → Polled × Pending
take_first [] = (no_more, [])
take_first (ev ∷ q) = (event ev, q)

pub data Call : Type 0 where
  send : ℕ → Event → Call
  poll : ℕ → Call

abbrev pub Boxes : Type 0
Boxes = ℕ → Pending

abbrev pub put_box : ℕ → Pending → Boxes → Boxes
put_box c q b j = if j == c then q else b j

abbrev pub is_open : Option ℕ → Bool
is_open none = false
is_open (some i) = true

-- The answers of the polls, where `place` says which canvases there are.
unfoldable pub answers_of : (ℕ → Option ℕ) → List Call → Boxes → List Polled
answers_of place [] b = []
answers_of place (send c ev ∷ calls) b = answers_of place calls (put_box c (post ev (b c)) b)
answers_of place (poll c ∷ calls) b =
    let (answer, q) = take_first (b c) in
    (if is_open (place c) then answer else not_found) ∷ answers_of place calls (put_box c q b)

-- The same on the windows.
unfoldable pub poll_all : List Call → Desktop → List Polled
poll_all [] d = []
poll_all (send c ev ∷ calls) d = poll_all calls (ax_send_event_to_canvas c ev d)
poll_all (poll c ∷ calls) d = let (answer, d') = ax_syscall_poll c d in answer ∷ poll_all calls d'

-- The ring from index `t` on holds the events.
abbrev pub Holds : List Event → ℕ → Pending → Type 0
Holds ring t [] = Unit
Holds ring t (ev ∷ q) = (get_or ring t no_event ≡ ev) × Holds ring ((t + 1) % 16) q

Holds-set :
    (ring : List Event) (t i : ℕ) (ev : Event) (q : Pending)
    → t < 16
    → length q < 16
    → i ≡ (t + length q) % 16
    → Holds ring t q
    → Holds (set ring i ev) t q
Holds-set ring t i ev [] ht hl e h = tt
Holds-set ring t i ev (x ∷ q) ht hl e h = (
  get_or-set_ne ring i t ev no_event (omega arith) ∙ h.0,
  Holds-set ring ((t + 1) % 16) i ev q (omega arith) (omega arith) (omega arith) h.1,
)

Holds-append :
    (ring : List Event) (t : ℕ) (ev : Event) (q : Pending)
    → t < 16
    → get_or ring ((t + length q) % 16) no_event ≡ ev
    → Holds ring t q
    → Holds ring t (q ++ (ev ∷ []))
Holds-append ring t ev [] ht e h = (ap (λ i. get_or ring i no_event) (omega arith) ∙ e, tt)
Holds-append ring t ev (x ∷ q) ht e h = (
  h.0,
  Holds-append ring ((t + 1) % 16) ev q (omega arith)
      (ap (λ i. get_or ring i no_event) (omega arith) ∙ e) h.1,
)

pub record IsBox (w : Window) (q : Pending) : Type 0 where
  pub storage : length w.ev_queue ≡ 16
  pub tail_in : w.ev_tail < 16
  pub room : length q ≤ 15
  pub head_behind : w.ev_head ≡ (w.ev_tail + length q) % 16
  pub holds : Holds w.ev_queue w.ev_tail q

module _ {w : Window} {q : Pending} (v : IsBox w q) where
  pub surf_push_event-IsBox :
      (ev : Event) → w.used ≡ true → IsBox (surf_push_event ev w) (post ev q)
  unfolding surf_push_event post
  surf_push_event-IsBox ev used = elim (Bool-cases (ltb (length q) 15)) [
    | inr full ↦
        let stop : ((w.ev_head + 1) % 16 == w.ev_tail) ≡ true =
          ground (arith, v.head_behind, v.room, v.tail_in) in
        simp (used, full, stop) v
    | inl open_end ↦
        let go : ((w.ev_head + 1) % 16 == w.ev_tail) ≡ false =
          ground (arith, v.head_behind, v.room, v.tail_in) in
        simp (used, open_end, go)
          (record {
            storage = length-set w.ev_queue w.ev_head ev ∙ v.storage;
            tail_in = v.tail_in;
            room = omega (arith, length-append q (ev ∷ []), ltb→lt (length q) 15 open_end);
            head_behind = omega (arith, v.head_behind, length-append q (ev ∷ []));
            holds =
                Holds-append (set w.ev_queue w.ev_head ev) w.ev_tail ev q v.tail_in
                  (rw (← v.head_behind) (
                    get_or-set_self w.ev_queue w.ev_head ev no_event
                      (omega (arith, v.storage, v.head_behind))))
                  (Holds-set w.ev_queue w.ev_tail w.ev_head ev q v.tail_in (omega (arith, v.room))
                    v.head_behind v.holds);
          })
  ]

-- The test of a poll.
module _ {w : Window} where
  none_waiting : IsBox w [] → (w.ev_head == w.ev_tail) ≡ true
  none_waiting v = ground (arith, v.head_behind, v.tail_in)

  is_filled : {ev : Event} {q : Pending} → IsBox w (ev ∷ q) → (w.ev_head == w.ev_tail) ≡ false
  is_filled v = ground (arith, v.head_behind, v.tail_in, v.room)

pub poll_window-first :
    {w : Window} (q : Pending) → IsBox w q → (poll_window w).0 ≡ (take_first q).0
unfolding poll_window take_first
poll_window-first {w} [] v = simp (none_waiting v) refl
poll_window-first {w} (ev ∷ q) v = simp (is_filled v) (ap event v.holds.0)

pub poll_window-IsBox :
    {w : Window} (q : Pending) → IsBox w q → IsBox (poll_window w).1 (take_first q).1
unfolding poll_window take_first
poll_window-IsBox {w} [] v = simp (none_waiting v) v
poll_window-IsBox {w} (ev ∷ q) v = simp (is_filled v) (record {
  storage = v.storage;
  tail_in = omega arith;
  room = omega (arith, v.room);
  head_behind = omega (arith, v.head_behind);
  holds = v.holds.1;
})
