-- ===== src/Keyboard/Refine.antt =====
-- The driver of drivers/keyboard.c behaves as the line that it holds.
use artyom_x.Base.{
  ℕ, ◌+◌, ◌/◌, ◌%◌, ◌≤◌, ◌<◌, ◌≡◌, refl, ap, ◌∙◌, List, [], ◌∷◌, ◌++◌, arith, ltb, ◌==◌, get_or,
  set, length, true, false, length-append, length-set, get_or-set_self, Bool-cases, inl, inr,
  if◌then◌else◌,
}
use artyom_x.Keyboard.{
  Keyboard, keyboard_map, keyboard_read, keyboard_clear_buffer, append_key, drop_key, enter_key,
  backspace_key, char_key, handle_key, keyboard_callback, is_buffer_full,
}
use artyom_x.Keyboard.Queue.{
  Line, type_key, drop_last, key, read, interrupt, Event, irq, get, reads, run,
}
use artyom_x.Keyboard.Ring.{Holds, Holds-set, Holds-append, Holds-drop_last, length-drop_last}

-- The ring holds `q`, and its indices agree.
pub record IsLine (k : Keyboard) (q : Line) : Type 0 where
  pub storage : length k.buffer ≡ 256
  pub tail_in : k.tail < 256
  pub counted : k.count ≡ length q
  pub room : length q ≤ 255
  pub head_behind : k.head ≡ (k.tail + length q) % 256
  pub holds : Holds k.buffer k.tail q

module _ {k : Keyboard} {q : Line} (v : IsLine k q) where
  append_key-IsLine : (c : ℕ) → length q < 255 → IsLine (append_key c k) (q ++ (c ∷ []))
  unfolding append_key
  append_key-IsLine c h = record {
    storage = length-set k.buffer k.head c ∙ v.storage;
    tail_in = v.tail_in;
    counted = omega (arith, v.counted, length-append q (c ∷ []));
    room = omega (arith, length-append q (c ∷ []));
    head_behind = omega (arith, v.head_behind, length-append q (c ∷ []));
    holds =
        Holds-append (set k.buffer k.head c) k.tail c q v.tail_in
          (rw (← v.head_behind)
            (get_or-set_self k.buffer k.head c 0 (omega (arith, v.storage, v.head_behind))))
          (Holds-set k.buffer k.tail k.head c q v.tail_in (omega arith) v.head_behind v.holds);
  }

  drop_key-IsLine : 0 < k.count → IsLine (drop_key k) (drop_last q)
  unfolding drop_key
  drop_key-IsLine h = record {
    storage = v.storage;
    tail_in = v.tail_in;
    counted = omega (arith, v.counted, length-drop_last q);
    room = omega (arith, v.room, length-drop_last q);
    head_behind = omega (arith, v.counted, v.room, v.tail_in, v.head_behind, length-drop_last q);
    holds = Holds-drop_last k.buffer k.tail q v.holds;
  }

  -- Fields outside the ring do not matter.
  marked-IsLine :
      (enter code : ℕ) → IsLine (record k { is_enter_pressed = enter; current_key = code }) q
  marked-IsLine enter code = record {
    storage = v.storage;
    tail_in = v.tail_in;
    counted = v.counted;
    room = v.room;
    head_behind = v.head_behind;
    holds = v.holds;
  }

module _ {k : Keyboard} {q : Line} (v : IsLine k q) where
  -- What the two kinds of key that add a character have in common.
  type_key-IsLine : (c : ℕ) → IsLine (if is_buffer_full k then k else append_key c k) (type_key c q)
  unfolding type_key
  type_key-IsLine c = elim (Bool-cases (is_buffer_full k)) [
    | inl full ↦
        let stop : ltb (length q) 255 ≡ false = ground (arith, v.counted) in rw (full, stop) v
    | inr open_end ↦
        let go : ltb (length q) 255 ≡ true = ground (arith, v.counted) in
        rw (open_end, go) (append_key-IsLine v c (ground (arith, v.counted)))
  ]

  enter_key-IsLine : IsLine (enter_key k) (type_key 10 q)
  unfolding enter_key
  enter_key-IsLine =
      let t = type_key-IsLine 10 in
      record {
        storage = t.storage;
        tail_in = t.tail_in;
        counted = t.counted;
        room = t.room;
        head_behind = t.head_behind;
        holds = t.holds;
      }

  char_key-IsLine : (c : ℕ) → IsLine (char_key c k).0 (type_key c q)
  unfolding char_key
  char_key-IsLine c = elim (Bool-cases (is_buffer_full k)) [
    | inl full ↦ rw full (rw full at (type_key-IsLine c))
    | inr open_end ↦ rw open_end (rw open_end at (type_key-IsLine c))
  ]

  backspace_key-IsLine : IsLine (backspace_key k).0 (drop_last q)
  unfolding backspace_key drop_last
  backspace_key-IsLine = elim (Bool-cases (ltb 0 k.count)) [
    | inl some_key ↦ rw some_key (drop_key-IsLine v (ground arith))
    | inr no_key ↦ rw no_key (empty_line v (ground arith))
  ]
    where
      empty_line : {r : Line} → IsLine k r → k.count ≡ 0 → IsLine k (drop_last r)
      empty_line {r = []} w z = w
      empty_line {r = x ∷ r} w z = absurd (omega (arith, w.counted))

module _ {k : Keyboard} {q : Line} (v : IsLine k q) where
  handle_key-IsLine : (code : ℕ) → IsLine (handle_key code k).0 (key code q)
  unfolding handle_key key
  handle_key-IsLine code = elim (Bool-cases (code == 0x1c)) [
    | inl e ↦ rw e (enter_key-IsLine here)
    | inr ne ↦ elim (Bool-cases (code == 0x0e)) [
      | inl e ↦ rw (ne, e) (backspace_key-IsLine here)
      | inr nb ↦ elim (Bool-cases (get_or keyboard_map code 0 == 0)) [
        | inl e ↦ rw (ne, nb, e) here
        | inr nz ↦ rw (ne, nb, nz) (char_key-IsLine here (get_or keyboard_map code 0))
      ]
    ]
  ]
    where
      here : IsLine (record k { current_key = code }) q
      here = marked-IsLine v k.is_enter_pressed code

  -- An interrupt edits the line as `interrupt` says, whatever the ports answer.
  pub keyboard_callback-IsLine :
      (status code : ℕ) → IsLine (keyboard_callback status code k).0 (interrupt status code q)
  unfolding keyboard_callback interrupt
  keyboard_callback-IsLine status code = elim (Bool-cases (status % 2 == 0)) [
    | inl e ↦ rw e v
    | inr ne ↦ elim (Bool-cases (code / 128 % 2 == 1)) [
      | inl e ↦ rw (ne, e) v
      | inr nr ↦ rw (ne, nr) (handle_key-IsLine code)
    ]
  ]

-- `keyboard_read` answers the first character of the line and takes it off, or -1.
pub keyboard_read-IsLine :
    {k : Keyboard} (q : Line)
    → IsLine k q
    → ((keyboard_read k).0 ≡ (read q).0) × IsLine (keyboard_read k).1 (read q).1
unfolding keyboard_read read
keyboard_read-IsLine {k} [] v =
    let z : (k.count == 0) ≡ true = ground (arith, v.counted) in rw z (refl, v)
keyboard_read-IsLine {k} (x ∷ q) v =
    let nz : (k.count == 0) ≡ false = ground (arith, v.counted) in
    rw nz (
      v.holds.0,
      record {
        storage = v.storage;
        tail_in = omega arith;
        counted = omega (arith, v.counted);
        room = omega (arith, v.room);
        head_behind = omega (arith, v.head_behind, v.tail_in);
        holds = v.holds.1;
      },
    )

-- For every schedule of interrupts and reads, the driver's reads answer what those of the line do:
-- characters come out in the order typed, less those that backspace took back or that did not fit.
pub run-reads : (es : List Event) (k : Keyboard) (q : Line) → IsLine k q → run es k ≡ reads es q
unfolding run reads
run-reads [] k q v = refl
run-reads (irq status code ∷ es) k q v = run-reads es _ _ (keyboard_callback-IsLine v status code)
run-reads (get ∷ es) k q v =
    let r = keyboard_read-IsLine q v in rw r.0 (ap (λ t. (read q).0 ∷ t) (run-reads es _ _ r.1))

-- `keyboard_clear_buffer` leaves the empty line, whatever the ring was.
pub keyboard_clear_buffer-IsLine :
    (k : Keyboard) → length k.buffer ≡ 256 → IsLine (keyboard_clear_buffer k) []
unfolding keyboard_clear_buffer
keyboard_clear_buffer-IsLine k h = record {
  storage = h;
  tail_in = omega arith;
  counted = refl;
  room = omega arith;
  head_behind = omega arith;
  holds = tt;
}
