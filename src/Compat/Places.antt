-- ===== src/Compat/Places.antt =====
-- The system call instructions in the code that kernel/compat.c patches.
use artyom_x.Base.{
  ℕ, suc, ◌+◌, ◌-◌, ◌≡◌, ◌≢◌, ◌∙◌, refl, sym, ◌&&◌, Bool, true, false, arith, ltb, ◌==◌,
  if◌then◌else◌, ℕ_discrete, dec_lt,
}
use artyom_x.Libc.{Memory, store}
use artyom_x.Libc.Copy.{within, within_suc, stored, unstored}

-- Is there a `syscall` instruction, 0F 05, at `i`, one of the `n` places from `p` on?
unfoldable pub is_syscall : ℕ → ℕ → Memory → ℕ → Bool
is_syscall p n mem i = within p n i && ((mem i == 0x0F) && (mem (i + 1) == 0x05))

-- Each of them is now CD with the number behind it, and all other bytes are as they were.
unfoldable pub Patched : ℕ → ℕ → ℕ → Memory → Memory → Type 0
Patched p n int_no mem new =
    (i : ℕ)
    → new i ≡ (
        if is_syscall p n mem i
        then 0xCD
        else if ltb p i && is_syscall p n mem (i - 1)
        then int_no
        else mem i)

pub outside : (p n : ℕ) (mem : Memory) (j : ℕ) → within p n j ≡ false → is_syscall p n mem j ≡ false
unfolding is_syscall
outside p n mem j out = rw out refl

pub here :
    (p n : ℕ) (mem : Memory) → mem p ≡ 0x0F → mem (p + 1) ≡ 0x05 → is_syscall p (suc n) mem p ≡ true
unfolding is_syscall
here p n mem first second =
    let inside : within p (suc n) p ≡ true = ground arith in rw (inside, first, second) refl

pub second_byte :
    (p n : ℕ) (mem : Memory) → mem (p + 1) ≡ 0x05 → is_syscall p (suc n) mem (p + 1) ≡ false
unfolding is_syscall
second_byte p n mem second =
    let inside = within_suc p n (p + 1) (λ e. ground arith) in rw (second, ← inside) (ground arith)

-- Behind a place with no instruction the same ones are left.
pub same_left :
    (p n : ℕ) (mem : Memory) (j : ℕ)
    → ((mem p == 0x0F) && (mem (p + 1) == 0x05)) ≡ false
    → is_syscall (p + 1) n mem j ≡ is_syscall p (suc n) mem j
unfolding is_syscall
same_left p n mem j miss = elim (ℕ_discrete j p) [
  | yes e ↦
      let out : within (p + 1) n j ≡ false = ground arith in rw (out, e, miss) (sym (ground arith))
  | no ne ↦ rw (within_suc p n j ne) refl
]

-- The same behind an instruction that has been patched: its second byte does not begin another.
pub same_patched :
    (p n int_no : ℕ) (mem : Memory) (j : ℕ)
    → int_no ≢ 0x0F
    → mem (p + 1) ≡ 0x05
    → j ≢ p
    → is_syscall (p + 1) n (store (store mem p 0xCD) (p + 1) int_no) j ≡ is_syscall p (suc n) mem j
unfolding is_syscall
same_patched p n int_no mem j other second ne = elim (ℕ_discrete j (p + 1)) [
  | yes e ↦
      let new = stored (store mem p 0xCD) (p + 1) int_no in
      let unlike : (int_no == 0x0F) ≡ false = ground arith in
      let whole = within_suc p n (p + 1) (omega arith) in rw (e, new, second, unlike, whole) refl
  | no behind ↦ elim (dec_lt j p) [
    | yes before ↦
        let out : within (p + 1) n j ≡ false = ground arith in
        let out' : within p (suc n) j ≡ false = ground arith in rw (out, out') refl
    | no after ↦
        let at : store (store mem p 0xCD) (p + 1) int_no j ≡ mem j =
          unstored (store mem p 0xCD) (p + 1) int_no j behind ∙ unstored mem p 0xCD j ne in
        let next : store (store mem p 0xCD) (p + 1) int_no (j + 1) ≡ mem (j + 1) =
          unstored (store mem p 0xCD) (p + 1) int_no (j + 1) (λ e. ground arith)
          ∙ unstored mem p 0xCD (j + 1) (λ e. ground arith) in
        rw (at, next, within_suc p n j ne) refl
  ]
]
