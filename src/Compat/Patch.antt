-- ===== src/Compat/Patch.antt =====
-- `compat_patch_syscalls` of kernel/compat.c: which bytes of the code it changes.
use artyom_x.Base.{
  and_false, ℕ, zero, suc, ◌+◌, ◌-◌, ◌%◌, ◌≡◌, ◌≢◌, ◌∙◌, inl, inr, refl, sym, ◌&&◌, true, false,
  arith, ltb, ◌==◌, if◌then◌else◌, Bool-cases, ℕ_discrete, dec_lt,
}
use artyom_x.Libc.{Memory, store}
use artyom_x.Libc.Copy.{within, stored, unstored}
use artyom_x.Compat.{patch_at, patch_loop, compat_patch_syscalls}
use artyom_x.Compat.Places.{
  is_syscall, Patched, outside, here, second_byte, same_left, same_patched,
}

later : (p i : ℕ) → i ≢ p + 1 → ltb (p + 1) i ≡ ltb p i
later p i ne = elim (Bool-cases (ltb p i)) [
  | inl l ↦ rw l (ground (arith, ne))
  | inr l ↦ rw l (ground (arith, ne))
]

after : (p : ℕ) → (ltb (p + 1) (p + 1) ≡ false) × (ltb p (p + 1) ≡ true) × (p + 1 - 1 ≡ p)
after p = (ground arith, ground arith, omega arith)

-- One round and the rest, at a place with no instruction and at one with it.
miss_round :
    (p n int_no : ℕ) (mem new : Memory)
    → ((mem p == 0x0F) && (mem (p + 1) == 0x05)) ≡ false
    → Patched (p + 1) n int_no mem new
    → Patched p (suc n) int_no mem new
unfolding Patched
miss_round p n int_no mem new miss rest i = elim (ℕ_discrete i (p + 1)) [
  | yes e ↦
      let none_here : is_syscall p (suc n) mem p ≡ false =
        sym (same_left p n mem p miss) ∙ outside (p + 1) n mem p (ground arith) in
      let (not_less, less, back) = after p in
      rw e
        (rest (p + 1) ∙ rw (same_left p n mem (p + 1) miss, back, not_less, less, none_here) refl)
  | no ne ↦
      rest i ∙ rw (same_left p n mem i miss, same_left p n mem (i - 1) miss, later p i ne) refl
]

hit_round :
    (p n int_no : ℕ) (mem new : Memory)
    → int_no ≢ 0x0F
    → mem p ≡ 0x0F
    → mem (p + 1) ≡ 0x05
    → Patched (p + 1) n int_no (store (store mem p 0xCD) (p + 1) int_no) new
    → Patched p (suc n) int_no mem new
unfolding Patched
hit_round p n int_no mem new other first second rest i = elim (ℕ_discrete i p) [
  | yes e ↦
      let before = outside (p + 1) n (store (store mem p 0xCD) (p + 1) int_no) p (ground arith) in
      let not_after : ltb (p + 1) p ≡ false = ground arith in
      let now : store (store mem p 0xCD) (p + 1) int_no p ≡ 0xCD =
        unstored (store mem p 0xCD) (p + 1) int_no p (omega arith) ∙ stored mem p 0xCD in
      rw (e, here p n mem first second) (rest p ∙ rw (before, not_after) now)
  | no ne ↦ elim (ℕ_discrete i (p + 1)) [
    | yes e ↦
        let none_next : is_syscall p (suc n) mem (p + 1) ≡ false = second_byte p n mem second in
        let (not_less, less, back) = after p in
        let same = same_patched p n int_no mem (p + 1) other second (λ e. ground arith) in
        rw e (
          rest (p + 1)
          ∙ rw (same, back, not_less, less, none_next, here p n mem first second)
              (stored (store mem p 0xCD) (p + 1) int_no))
    | no behind ↦ elim (dec_lt i p) [
      | yes before ↦
          let gone = outside (p + 1) n mem' i (ground arith) in
          let gone' = outside p (suc n) mem i (ground arith) in
          let low : ltb (p + 1) i ≡ false = ground arith in
          let low' : ltb p i ≡ false = ground arith in
          rest i ∙ rw (gone, gone', low, low') (unwritten ne behind)
      | no _ ↦
          let same = same_patched p n int_no mem i other second ne in
          let same' = same_patched p n int_no mem (i - 1) other second (λ e. ground arith) in
          rest i ∙ rw (same, same', later p i behind) (rw (unwritten ne behind) refl)
    ]
  ]
]
  where
    mem' : Memory
    mem' = store (store mem p 0xCD) (p + 1) int_no

    unwritten : i ≢ p → i ≢ p + 1 → mem' i ≡ mem i
    unwritten ne behind =
        unstored (store mem p 0xCD) (p + 1) int_no i behind ∙ unstored mem p 0xCD i ne

unpatched : (p int_no : ℕ) (mem : Memory) → Patched p 0 int_no mem mem
unfolding Patched
unpatched p int_no mem i =
    let last = outside p 0 mem (i - 1) (ground arith) in
    rw (outside p 0 mem i (ground arith), last, and_false (ltb p i)) refl

patch_loop-Patched :
    (n p int_no : ℕ) (mem : Memory)
    → int_no ≢ 0x0F
    → Patched p n int_no mem (patch_loop n p int_no mem)
unfolding patch_loop patch_at
patch_loop-Patched zero p int_no mem other = unpatched p int_no mem
patch_loop-Patched (suc n) p int_no mem other =
    elim (Bool-cases ((mem p == 0x0F) && (mem (p + 1) == 0x05))) [
      | inl hit ↦
          let first : mem p ≡ 0x0F = ground arith in
          let second : mem (p + 1) ≡ 0x05 = ground arith in
          rw hit (
            hit_round p n int_no mem _ other first second
              (patch_loop-Patched n (p + 1) int_no (store (store mem p 0xCD) (p + 1) int_no) other))
      | inr miss ↦
          rw miss (miss_round p n int_no mem _ miss (patch_loop-Patched n (p + 1) int_no mem other))
    ]

unlike :
    (p n : ℕ) (mem : Memory) (i : ℕ) {x : ℕ} → mem i ≡ x → x ≢ 0x0F → is_syscall p n mem i ≡ false
unfolding is_syscall
unlike p n mem i e ne =
    let other : (mem i == 0x0F) ≡ false = ground arith in rw other (and_false (within p n i))

still_none :
    (p n : ℕ) (mem new : Memory) (i : ℕ)
    → is_syscall p n mem i ≡ false
    → new i ≡ mem i
    → new (i + 1) ≡ (if is_syscall p n mem (i + 1) then 0xCD else mem (i + 1))
    → is_syscall p n new i ≡ false
unfolding is_syscall
still_none p n mem new i s at next = elim (Bool-cases (is_syscall p n mem (i + 1))) [
  | inl t ↦
      let changed : new (i + 1) ≡ 0xCD = next ∙ rw t refl in
      let second : (new (i + 1) == 0x05) ≡ false = ground arith in
      rw (second, and_false (new i == 0x0F)) (and_false (within p n i))
  | inr t ↦ let same : new (i + 1) ≡ mem (i + 1) = next ∙ rw t refl in rw (at, same) s
]

-- No instruction is left in what has been patched.
none_left :
    (p n int_no : ℕ) (mem new : Memory)
    → int_no ≢ 0x0F
    → Patched p n int_no mem new
    → (i : ℕ) → is_syscall p n new i ≡ false
unfolding Patched
none_left p n int_no mem new other done i = elim (Bool-cases (is_syscall p n mem i)) [
  | inl s ↦ unlike p n new i (done i ∙ rw s refl) (λ (e : 0xCD ≡ 0x0F). ground arith)
  | inr s ↦ elim (Bool-cases (ltb p i && is_syscall p n mem (i - 1))) [
    | inl b ↦ unlike p n new i (done i ∙ rw (s, b) refl) other
    | inr b ↦
        let at : new i ≡ mem i = done i ∙ rw (s, b) refl in
        let back : i + 1 - 1 ≡ i = omega arith in
        let next : new (i + 1) ≡ (if is_syscall p n mem (i + 1) then 0xCD else mem (i + 1)) =
          done (i + 1) ∙ rw (back, s, and_false (ltb p (i + 1))) refl in
        still_none p n mem new i s at next
  ]
]

-- With a number other than 0F, `compat_patch_syscalls` makes CD and the number of every 0F 05 that
-- begins and ends in the code, leaves all other bytes as they are, and no 0F 05 remains.
pub compat_patch_syscalls-Patched :
    (code size patch_int : ℕ) (mem : Memory)
    → patch_int % 256 ≢ 0x0F
    → let new = compat_patch_syscalls code size patch_int mem in
      Patched code (size - 1) (patch_int % 256) mem new
      × ((i : ℕ) → is_syscall code (size - 1) new i ≡ false)
unfolding compat_patch_syscalls
compat_patch_syscalls-Patched code size patch_int mem other =
    let done = patch_loop-Patched (size - 1) code (patch_int % 256) mem other in
    (done, none_left code (size - 1) (patch_int % 256) mem _ other done)
