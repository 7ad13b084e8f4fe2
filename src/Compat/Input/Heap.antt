-- ===== src/Compat/Input/Heap.antt =====
-- The read of a line in kernel/compat.c leaves the heap alone.
use artyom_x.Base.{
  ℕ, ◌-◌, ◌≡◌, refl, ap, ◌∙◌, not, Option, none, some, List, [], ◌∷◌, ◌==◌, ◌||◌, Bool-cases, inl,
  inr,
}
use artyom_x.Libc.{ℤ}
use artyom_x.Keyboard.{keyboard_clear_buffer}
use artyom_x.Syscalls.{Sys, is_minus}
use artyom_x.Compat.{Kernel}
use artyom_x.Compat.Input.{take_line, key_interrupt, key_interrupts, wait_line, sys_read_compat}

abbrev pub SameHeap : Kernel → Option (ℤ × Kernel) → Type 0
SameHeap k none = Unit
SameHeap k (some (z, k')) = k'.sys.heap ≡ k.sys.heap

key_interrupts-sys : (keys : List (ℕ × ℕ)) (k : Kernel) → (key_interrupts keys k).sys ≡ k.sys
unfolding key_interrupts key_interrupt
key_interrupts-sys [] k = refl
key_interrupts-sys ((status, code) ∷ keys) k = key_interrupts-sys keys (key_interrupt status code k)

SameHeap-trans :
    (j k : Kernel) (o : Option (ℤ × Kernel)) → j.sys.heap ≡ k.sys.heap → SameHeap j o → SameHeap k o
SameHeap-trans j k none e h = tt
SameHeap-trans j k (some (z, k')) e h = h ∙ e

wait_line-SameHeap :
    (bursts : List (List (ℕ × ℕ))) (room buf : ℕ) (k : Kernel)
    → SameHeap k (wait_line bursts room buf k)
unfolding wait_line take_line
wait_line-SameHeap [] room buf k = elim (Bool-cases (k.keyboard.is_enter_pressed == 0)) [
  | inl more ↦ rw more tt
  | inr pressed ↦ rw pressed refl
]
wait_line-SameHeap (keys ∷ bursts) room buf k =
    let k1 = key_interrupts keys k in
    elim (Bool-cases (k.keyboard.is_enter_pressed == 0)) [
      | inl more ↦ rw more (
          SameHeap-trans k1 k (wait_line bursts room buf k1)
            (ap (λ (s : Sys). s.heap) (key_interrupts-sys keys k))
            (wait_line-SameHeap bursts room buf k1))
      | inr pressed ↦ rw pressed refl
    ]

pub sys_read_compat-SameHeap :
    (bursts : List (List (ℕ × ℕ))) (fd buf len : ℕ) (k : Kernel)
    → SameHeap k (sys_read_compat bursts fd buf len k)
unfolding sys_read_compat
sys_read_compat-SameHeap bursts fd buf len k = elim (Bool-cases (not (fd == 0))) [
  | inl other ↦ rw other refl
  | inr keys ↦ elim (Bool-cases ((len == 0) || is_minus len)) [
    | inl nothing ↦ rw (keys, nothing) refl
    | inr some_room ↦ elim (Bool-cases (len == 1)) [
      | inl one ↦ rw (keys, some_room, one) refl
      | inr more ↦
          rw (keys, some_room, more)
            (wait_line-SameHeap bursts (len - 1) buf
              (record k { keyboard = keyboard_clear_buffer k.keyboard }))
    ]
  ]
]
