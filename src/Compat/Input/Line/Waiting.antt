-- ===== src/Compat/Input/Line/Waiting.antt =====
-- `sys_read_compat` of kernel/compat.c from the call to its answer: the keys that arrive, and the line
-- that the program gets.
use artyom_x.Base.{
  ℕ, ◌-◌, ◌^◌, ◌≤◌, ◌<◌, ◌≡◌, ◌∙◌, refl, ap, subst, inl, inr, Bool, true, false, Option, none, some,
  List, [], ◌∷◌, arith, ◌==◌, ◌||◌, if◌then◌else◌, Bool-cases, length, not,
}
use artyom_x.Libc.{Memory, ℤ, pos}
use artyom_x.Keyboard.{Keyboard, keyboard_clear_buffer, keyboard_callback}
use artyom_x.Keyboard.Queue.{Line, interrupt}
use artyom_x.Keyboard.Refine.{IsLine, keyboard_callback-IsLine, keyboard_clear_buffer-IsLine}
use artyom_x.Keyboard.Enter.{presses_enter, keyboard_callback_enter}
use artyom_x.Syscalls.{is_minus}
use artyom_x.Compat.{Kernel}
use artyom_x.Compat.Input.{take_line, key_interrupt, key_interrupts, wait_line, sys_read_compat}
use artyom_x.Compat.Input.Line.{line_of, left_behind, Wrote, drain-Drains}

-- Is Enter among the keys?
unfoldable pub any_enter : List (ℕ × ℕ) → Bool
any_enter [] = false
any_enter ((status, code) ∷ keys) = presses_enter status code || any_enter keys

unfoldable pub typed : List (ℕ × ℕ) → Line → Line
typed [] q = q
typed ((status, code) ∷ keys) q = typed keys (interrupt status code q)

-- The line when the burst with the first Enter has arrived.
unfoldable pub line_at_enter : List (List (ℕ × ℕ)) → Line → Option Line
line_at_enter [] q = none
line_at_enter (keys ∷ bursts) q =
    let rest = line_at_enter bursts (typed keys q) in
    if any_enter keys then some (typed keys q) else rest

cleared : (kb : Keyboard) → ((keyboard_clear_buffer kb).is_enter_pressed == 0) ≡ true
unfolding keyboard_clear_buffer
cleared kb = refl

-- The keyboard after a burst.
after_keys : List (ℕ × ℕ) → Keyboard → Keyboard
after_keys [] kb = kb
after_keys ((status, code) ∷ keys) kb = after_keys keys (keyboard_callback status code kb).0

key_interrupts-after_keys :
    (keys : List (ℕ × ℕ)) (k : Kernel)
    → ((key_interrupts keys k).keyboard ≡ after_keys keys k.keyboard)
      × ((key_interrupts keys k).sys ≡ k.sys)
unfolding key_interrupts key_interrupt after_keys
key_interrupts-after_keys [] k = (refl, refl)
key_interrupts-after_keys ((status, code) ∷ keys) k =
    key_interrupts-after_keys keys (key_interrupt status code k)

after_keys-IsLine :
    (keys : List (ℕ × ℕ)) {kb : Keyboard} {q : Line}
    → IsLine kb q
    → IsLine (after_keys keys kb) (typed keys q)
unfolding after_keys typed
after_keys-IsLine [] v = v
after_keys-IsLine ((status, code) ∷ keys) v =
    after_keys-IsLine keys (keyboard_callback-IsLine v status code)

after_keys_pressed :
    (keys : List (ℕ × ℕ)) (kb : Keyboard)
    → (kb.is_enter_pressed == 0) ≡ false
    → ((after_keys keys kb).is_enter_pressed == 0) ≡ false
unfolding after_keys
after_keys_pressed [] kb h = h
after_keys_pressed ((status, code) ∷ keys) kb h =
    let e = keyboard_callback_enter status code kb in
    after_keys_pressed keys _ (elim (Bool-cases (presses_enter status code)) [
      | inl p ↦ rw (e, p) refl
      | inr p ↦ rw (e, p) h
    ])

after_keys_enter :
    (keys : List (ℕ × ℕ)) (kb : Keyboard)
    → (kb.is_enter_pressed == 0) ≡ true
    → ((after_keys keys kb).is_enter_pressed == 0) ≡ not (any_enter keys)
unfolding after_keys any_enter
after_keys_enter [] kb h = h
after_keys_enter ((status, code) ∷ keys) kb h =
    let e = keyboard_callback_enter status code kb in
    elim (Bool-cases (presses_enter status code)) [
      | inl p ↦ rw p (after_keys_pressed keys _ (rw (e, p) refl))
      | inr p ↦ rw p (after_keys_enter keys _ (rw (e, p) h))
    ]

-- What the program gets for the line that is there at Enter, or that it still waits.
pub data Takes (room buf : ℕ) (mem : Memory) : Option Line → Option (ℤ × Kernel) → Type 0 where
  still_waits : Takes room buf mem none none
  takes :
      {q : Line} {k : Kernel}
      → Wrote buf (line_of room q) mem k.sys.memory
      → IsLine k.keyboard (left_behind room q)
      → k.keyboard.is_enter_pressed ≡ 0
      → Takes room buf mem (some q) (some (pos (length (line_of room q)), k))

Takes-memory :
    {room buf : ℕ} {m n : Memory} {q : Option Line} {r : Option (ℤ × Kernel)}
    → m ≡ n
    → Takes room buf m q r
    → Takes room buf n q r
Takes-memory {room} {buf} {q = q} {r = r} e = subst (λ m. Takes room buf m q r) e

-- The ring does not see the flag.
unmarked-IsLine :
    (kb : Keyboard) {q : Line} → IsLine kb q → IsLine (record kb { is_enter_pressed = 0 }) q
unmarked-IsLine kb v = record {
  storage = v.storage;
  tail_in = v.tail_in;
  counted = v.counted;
  room = v.room;
  head_behind = v.head_behind;
  holds = v.holds;
}

take_line-Takes :
    (room buf : ℕ) (q : Line) (k : Kernel)
    → IsLine k.keyboard q
    → Takes room buf k.sys.memory (some q) (some (take_line room buf k))
unfolding take_line
take_line-Takes room buf q k v =
    let d = drain-Drains room buf q k.keyboard k.sys.memory v in
    rw d.count (takes d.text (unmarked-IsLine _ d.rest) refl)

wait_line_ready :
    (bursts : List (List (ℕ × ℕ))) (room buf : ℕ) (k : Kernel)
    → (k.keyboard.is_enter_pressed == 0) ≡ false
    → wait_line bursts room buf k ≡ some (take_line room buf k)
unfolding wait_line
wait_line_ready [] room buf k h = rw h refl
wait_line_ready (keys ∷ bursts) room buf k h = rw h refl

wait_line-Takes :
    (bursts : List (List (ℕ × ℕ))) (room buf : ℕ) (q : Line) (k : Kernel)
    → IsLine k.keyboard q
    → (k.keyboard.is_enter_pressed == 0) ≡ true
    → Takes room buf k.sys.memory (line_at_enter bursts q) (wait_line bursts room buf k)
unfolding wait_line line_at_enter
wait_line-Takes [] room buf q k v h = rw h still_waits
wait_line-Takes (keys ∷ bursts) room buf q k v h =
    let k1 = key_interrupts keys k in
    let (keyboard, sys) = key_interrupts-after_keys keys k in
    let same : k1.sys.memory ≡ k.sys.memory = ap (λ s. s.memory) sys in
    let v1 : IsLine k1.keyboard (typed keys q) = rw keyboard (after_keys-IsLine keys v) in
    let flag : (k1.keyboard.is_enter_pressed == 0) ≡ not (any_enter keys) =
      rw keyboard (after_keys_enter keys k.keyboard h) in
    elim (Bool-cases (any_enter keys)) [
      | inl e ↦
          let ready : (k1.keyboard.is_enter_pressed == 0) ≡ false = flag ∙ rw e refl in
          rw (h, e, wait_line_ready bursts room buf k1 ready)
            (Takes-memory same (take_line-Takes room buf (typed keys q) k1 v1))
      | inr e ↦
          let not_yet : (k1.keyboard.is_enter_pressed == 0) ≡ true = flag ∙ rw e refl in
          rw (h, e)
            (Takes-memory same (wait_line-Takes bursts room buf (typed keys q) k1 v1 not_yet))
    ]

-- However the keys arrive in bursts: `sys_read_compat` of descriptor 0 answers once a burst has brought
-- Enter, and only then. It stores the line as the keyboard holds it, edited by backspace and at most 255
-- characters, up to the newline or the length less one, puts a 0 behind it and answers how many
-- characters it is; the flag is cleared, the rest stays in the keyboard, and no other byte of memory
-- changes. The length is from 2 to 2^31 - 1 and the driver has its 256 bytes.
pub sys_read_compat-Takes :
    (bursts : List (List (ℕ × ℕ))) (buf len : ℕ) (k : Kernel)
    → 2 ≤ len
    → len < 2 ^ 31
    → length k.keyboard.buffer ≡ 256
    → Takes
        (len - 1)
        buf
        k.sys.memory
        (line_at_enter bursts [])
        (sys_read_compat bursts 0 buf len k)
unfolding sys_read_compat
sys_read_compat-Takes bursts buf len k two small storage =
    let ready = record k { keyboard = keyboard_clear_buffer k.keyboard } in
    let some_room : ((len == 0) || is_minus len) ≡ false = ground arith in
    let more : (len == 1) ≡ false = ground arith in
    rw (some_room, more)
      (wait_line-Takes bursts (len - 1) buf [] ready
        (keyboard_clear_buffer-IsLine k.keyboard storage) (cleared k.keyboard))
