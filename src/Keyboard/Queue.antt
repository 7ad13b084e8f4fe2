-- ===== src/Keyboard/Queue.antt =====
-- What the keyboard buffer of drivers/keyboard.c promises: a line of at most 255 characters, typed
-- at its end, corrected at its end by backspace, and read from its front.
use artyom_x.Base.{ℕ, ◌/◌, ◌%◌, List, [], ◌∷◌, ◌++◌, ltb, ◌==◌, if◌then◌else◌, get_or, length}
use artyom_x.Keyboard.{keyboard_map, keyboard_read, keyboard_callback, Keyboard}

abbrev pub Line : Type 0
Line = List ℕ

unfoldable pub type_key : ℕ → Line → Line
type_key c q = if ltb (length q) 255 then q ++ (c ∷ []) else q

unfoldable pub drop_last : Line → Line
drop_last [] = []
drop_last (x ∷ []) = []
drop_last (x ∷ (y ∷ q)) = x ∷ drop_last (y ∷ q)

-- A scan code: enter, backspace, a character of the table, or nothing.
unfoldable pub key : ℕ → Line → Line
key code q =
    if code == 0x1c
    then type_key 10 q
    else if code == 0x0e
    then drop_last q
    else if get_or keyboard_map code 0 == 0
    then q
    else type_key (get_or keyboard_map code 0) q

unfoldable pub read : Line → ℕ × Line
read [] = (255, [])
read (x ∷ q) = (x, q)

-- What happens to the driver: an interrupt, with the status and the code that the ports answer, or
-- a call of `keyboard_read`.
pub data Event : Type 0 where
  irq : ℕ → ℕ → Event
  get : Event

unfoldable pub interrupt : ℕ → ℕ → Line → Line
unfolding key
interrupt status code q =
    if status % 2 == 0 then q else if code / 128 % 2 == 1 then q else key code q

-- The characters that the reads of a schedule answer.
unfoldable pub reads : List Event → Line → List ℕ
unfolding interrupt read
reads [] q = []
reads (irq status code ∷ es) q = reads es (interrupt status code q)
reads (get ∷ es) q = let (c, q') = read q in c ∷ reads es q'

-- The same schedule on the driver.
unfoldable pub run : List Event → Keyboard → List ℕ
run [] k = []
run (irq status code ∷ es) k = run es (keyboard_callback status code k).0
run (get ∷ es) k = let (c, k') = keyboard_read k in c ∷ run es k'
