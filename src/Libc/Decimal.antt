-- ===== src/Libc/Decimal.antt =====
-- The printed numbers of lib/libc.c: `atoi` reads what `print_uint` writes, and `print_int` writes the
-- sign and the absolute value.
use artyom_x.Base.{
  ℕ, zero, suc, ◌+◌, ◌-◌, ◌*◌, ◌/◌, ◌%◌, ◌^◌, ◌≤◌, ◌<◌, ◌≡◌, ◌∙◌, refl, ap, true, false, List, [],
  ◌∷◌, ◌++◌, ltb, leb, ◌==◌, if◌then◌else◌, arith, Bool-cases, inl, inr,
}
use artyom_x.Libc.{
  int_word, atoi_step, atoi_from, atoi, digit_char, digits, print_buf, print_uint, print_positive,
  print_int,
}
use native.Mathlib.Nat.{pow-suc}

-- A digit in decimal is a char that `atoi_step` reads back.
digit_step : (k x : ℕ) → x < 10 → k * 10 + x < 2 ^ 32 → atoi_step k (digit_char x) ≡ k * 10 + x
unfolding atoi_step digit_char
digit_step k x h l = ground arith

digit_nonzero : (x : ℕ) → x < 10 → (digit_char x == 0) ≡ false
unfolding digit_char
digit_nonzero x h = ground arith

-- A text with no final 0 in it, so that `atoi` reads all of it.
NoZero : List ℕ → Type 0
NoZero [] = Unit
NoZero (c ∷ cs) = ((c == 0) ≡ false) × NoZero cs

append-NoZero : (cs : List ℕ) (c : ℕ) → NoZero cs → (c == 0) ≡ false → NoZero (cs ++ (c ∷ []))
unfolding NoZero
append-NoZero [] c h e = (e, tt)
append-NoZero (x ∷ cs) c h e = (h.0, append-NoZero cs c h.1 e)

atoi_from-append :
    (k : ℕ) (cs : List ℕ) (c : ℕ)
    → NoZero cs
    → (c == 0) ≡ false
    → atoi_from k (cs ++ (c ∷ [])) ≡ atoi_step (atoi_from k cs) c
unfolding NoZero atoi_from
atoi_from-append k [] c h e = rw e refl
atoi_from-append k (x ∷ cs) c h e = rw h.0 (atoi_from-append (atoi_step k x) cs c h.1 e)

digits_print :
    (room n : ℕ)
    → n < 10 ^ room
    → n < 2 ^ 32
    → NoZero (print_buf (digits room n 10)) × (atoi_from 0 (print_buf (digits room n 10)) ≡ n)
unfolding digits print_buf NoZero atoi_from
digits_print zero n h l = (tt, omega (arith, h))
digits_print (suc room) n h l = elim (Bool-cases (n == 0)) [
  | inl z ↦ rw z (tt, ground arith)
  | inr nz ↦
      let c = digit_char (n % 10) in
      let fine = digit_nonzero (n % 10) (omega arith) in
      let r = digits_print room (n / 10) (omega (arith, rw (pow-suc 10 room) at h)) (omega arith) in
      let text = print_buf (digits room (n / 10) 10) in
      rw nz (
        append-NoZero text c r.0 fine,
        atoi_from-append 0 text c r.0 fine
            ∙ ap (λ k. atoi_step k c) r.1
            ∙ digit_step (n / 10) (n % 10) (omega arith) (omega arith)
            ∙ omega arith,
      )
]

-- `atoi` reads back what `print_uint` prints in decimal, for every `unsigned int`.
pub atoi-print_uint : (n : ℕ) → n < 2 ^ 32 → atoi (print_uint n 10) ≡ n
unfolding atoi print_uint atoi_from atoi_step
atoi-print_uint n l = elim (Bool-cases (n == 0)) [
  | inl z ↦ rw z (zero_read ∙ ground arith)
  | inr nz ↦ rw nz (digits_print 32 n (omega arith) l).1
]
  where
    zero_read : atoi_from 0 (48 ∷ []) ≡ 0
    zero_read = refl

-- `print_int` in decimal prints an `int`, given as its word, by its sign and its absolute value, and
-- a lone sign for the least one.
pub print_int_decimal :
    (w : ℕ)
    → w < 2 ^ 32
    → print_int w 10 ≡ (
        if ltb w (2 ^ 31)
        then print_uint w 10
        else if w == 2 ^ 31
        then 45 ∷ []
        else 45 ∷ print_uint (2 ^ 32 - w) 10)
unfolding print_int print_positive print_uint
print_int_decimal w l = elim (Bool-cases (w == 0)) [
  | inl z ↦ let z' : w ≡ 0 = ground arith in rw z' refl
  | inr nz ↦ elim (Bool-cases (ltb w (2 ^ 31))) [
    | inl small ↦ let up : leb (2 ^ 31) w ≡ false = ground arith in rw (nz, small, up) refl
    | inr large ↦
        let down : leb (2 ^ 31) w ≡ true = ground arith in
        let ge : 2 ^ 31 ≤ w = ground arith in
        let word : int_word (2 ^ 32 - w) ≡ 2 ^ 32 - w = omega (arith, ge) in
        elim (Bool-cases (w == 2 ^ 31)) [
          | inl least ↦ let e : w ≡ 2 ^ 31 = ground arith in rw e refl
          | inr above ↦
              let fits : leb (2 ^ 31) (2 ^ 32 - w) ≡ false = ground arith in
              let some_left : (2 ^ 32 - w == 0) ≡ false = ground arith in
              rw (nz, large, down, word, above, fits, some_left) refl
        ]
  ]
]
