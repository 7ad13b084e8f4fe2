-- ===== src/Compat/Input.antt =====
-- `sys_read_compat` of kernel/compat.c, which waits for a line of the keyboard. At each `pause` of the
-- loop a burst of key codes arrives, each with the status of the port.
pub mod Line
pub mod Heap
use artyom_x.Base.{
  ℕ, zero, suc, ◌+◌, ◌-◌, Bool, true, false, not, Option, none, some, List, [], ◌∷◌, ◌==◌, ◌||◌,
  if◌then◌else◌,
}
use artyom_x.Libc.{Memory, store, ℤ, pos, negsuc}
use artyom_x.Monitor.{Console, monitor_put}
use artyom_x.Keyboard.{
  Keyboard, Output, put, outb, is_buffer_empty, keyboard_read, keyboard_clear_buffer,
  keyboard_callback,
}
use artyom_x.Syscalls.{is_minus}
use artyom_x.Compat.{Kernel}

-- The inner loop with the bytes of the line that are left, up to the final 0 and the answer; the
-- branches that leave the loop do the same.
pub drain : ℕ → ℕ → Keyboard → Memory → ℕ × Keyboard × Memory
drain zero a kb mem = (0, kb, store mem a 0)
drain (suc room) a kb mem =
    let (c, kb') = keyboard_read kb in
    let (n, kb'', mem'') = drain room (a + 1) kb' (store mem a c) in
    if is_buffer_empty kb
    then (0, kb, store mem a 0)
    else if (c == 255) || (c == 10)
    then (0, kb', store mem a 0)
    else (suc n, kb'', mem'')

pub take_line : ℕ → ℕ → Kernel → ℤ × Kernel
take_line room buf k =
    let (n, kb, mem) = drain room buf k.keyboard k.sys.memory in
    (
      pos n,
      record k {
        keyboard = record kb { is_enter_pressed = 0 };
        sys = record k.sys { memory = mem };
      },
    )

-- What the driver sends to the screen.
pub echo : List Output → Console → Console
echo [] c = c
echo (put x ∷ out) c = echo out (monitor_put x c)
echo (outb port value ∷ out) c = echo out c

pub key_interrupt : ℕ → ℕ → Kernel → Kernel
key_interrupt status code k =
    let (kb, out) = keyboard_callback status code k.keyboard in
    record k { keyboard = kb; console = echo out k.console }

pub key_interrupts : List (ℕ × ℕ) → Kernel → Kernel
key_interrupts [] k = k
key_interrupts ((status, code) ∷ keys) k = key_interrupts keys (key_interrupt status code k)

-- The outer loop; `none` while it still waits behind the last burst.
pub wait_line : List (List (ℕ × ℕ)) → ℕ → ℕ → Kernel → Option (ℤ × Kernel)
wait_line [] room buf k =
    if k.keyboard.is_enter_pressed == 0 then none else some (take_line room buf k)
wait_line (keys ∷ bursts) room buf k =
    let rest = wait_line bursts room buf (key_interrupts keys k) in
    if k.keyboard.is_enter_pressed == 0 then rest else some (take_line room buf k)

pub sys_read_compat : List (List (ℕ × ℕ)) → ℕ → ℕ → ℕ → Kernel → Option (ℤ × Kernel)
sys_read_compat bursts fd buf len k =
    let ready = record k { keyboard = keyboard_clear_buffer k.keyboard } in
    let waited = wait_line bursts (len - 1) buf ready in
    if not (fd == 0)
    then some (negsuc 0, k)
    else if (len == 0) || is_minus len
    then some (pos 0, k)
    else if len == 1
    then some (pos 0, record ready { sys = record k.sys { memory = store k.sys.memory buf 0 } })
    else waited
