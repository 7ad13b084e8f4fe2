-- ===== src/Monitor/Numbers.antt =====
-- The numbers that drivers/monitor.c prints: what is printed, and that it reads back.
use artyom_x.Base.{
  ℕ, zero, suc, ◌+◌, ◌-◌, ◌*◌, ◌/◌, ◌%◌, ◌^◌, ◌<◌, ◌≡◌, ◌∙◌, ◌⊎◌, inl, inr, refl, ap, sym, Bool,
  true, false, leb, ltb, ◌==◌, if◌then◌else◌, arith, ◌&&◌, Bool-cases, List, [], ◌∷◌,
}
use artyom_x.Libc.{digits, digit_char, print_uint}
use artyom_x.Monitor.{
  Console, monitor_write, hex_char, hex_loop, monitor_write_hex, dec_digits, monitor_write_dec,
}
use native.Mathlib.Nat.{div-div-eq-div-mul, pow-suc}

-- The digits of `n` in base 16, without the zeroes in front of the first one.
unfoldable pub hex_digits : ℕ → Bool → ℕ → List ℕ
hex_digits zero no_zeroes n = hex_char (n % 16) ∷ []
hex_digits (suc rounds) no_zeroes n =
    let tmp = n / 2 ^ (4 * suc rounds) % 16 in
    let skip = (tmp == 0) && no_zeroes in
    let rest = hex_digits rounds skip n in if skip then rest else hex_char tmp ∷ rest

-- The value of a digit, and of a text of them behind `acc`.
abbrev pub hex_value : ℕ → ℕ
hex_value c = if leb 97 c then c - 97 + 10 else c - 48

abbrev pub read_hex : ℕ → List ℕ → ℕ
read_hex acc [] = acc
read_hex acc (c ∷ cs) = read_hex (acc * 16 + hex_value c) cs

value_back : (x : ℕ) → x < 16 → hex_value (hex_char x) ≡ x
unfolding hex_char
value_back x h = ground arith

four_more : (k : ℕ) → 2 ^ (4 * suc k) ≡ 2 ^ (4 * k) * 16
four_more k =
    let p = 4 * k in
    let e : 4 * suc k ≡ suc (suc (suc (suc p))) = omega arith in
    rw (e, pow-suc 2 (suc (suc (suc p))), pow-suc 2 (suc (suc p)), pow-suc 2 (suc p), pow-suc 2 p)
      (omega arith)

shift_16 : (n k : ℕ) → n / 2 ^ (4 * suc k) ≡ n / 2 ^ (4 * k) / 16
shift_16 n k = ap (λ q. n / q) (four_more k) ∙ sym (div-div-eq-div-mul n (2 ^ (4 * k)) 16)

-- What is read so far is the number without the nibbles that are left.
read_hex-digits :
    (rounds : ℕ) (no_zeroes : Bool) (n acc : ℕ)
    → acc ≡ n / 2 ^ (4 * suc rounds)
    → (no_zeroes ≡ false) ⊎ (acc ≡ 0)
    → read_hex acc (hex_digits rounds no_zeroes n) ≡ n
unfolding hex_digits
read_hex-digits zero no_zeroes n acc h z = rw (value_back (n % 16) (omega arith)) (omega (arith, h))
read_hex-digits (suc rounds) no_zeroes n acc h z =
    let m = n / 2 ^ (4 * suc rounds) in
    let tmp = m % 16 in
    let before : acc ≡ m / 16 = h ∙ shift_16 n (suc rounds) in
    elim (Bool-cases ((tmp == 0) && no_zeroes)) [
      | inl skip ↦
          rw skip
            (read_hex-digits rounds true n acc (nothing skip before z) (inr (zero_now skip z)))
      | inr show ↦
          let now : acc * 16 + hex_value (hex_char tmp) ≡ m =
            rw (value_back tmp (omega arith)) (omega (arith, before)) in
          rw show (read_hex-digits rounds false n _ now (inl refl))
    ]
  where
    zero_now :
        ((n / 2 ^ (4 * suc rounds) % 16 == 0) && no_zeroes) ≡ true
        → (no_zeroes ≡ false) ⊎ (acc ≡ 0)
        → acc ≡ 0
    zero_now skip (inl f) = absurd (ground (arith, skip, f))
    zero_now skip (inr e) = e

    nothing :
        ((n / 2 ^ (4 * suc rounds) % 16 == 0) && no_zeroes) ≡ true
        → acc ≡ n / 2 ^ (4 * suc rounds) / 16
        → (no_zeroes ≡ false) ⊎ (acc ≡ 0)
        → acc ≡ n / 2 ^ (4 * suc rounds)
    nothing skip before z =
        let a = zero_now skip z in
        let t : n / 2 ^ (4 * suc rounds) % 16 ≡ 0 = ground (arith, skip) in
        omega (arith, before, a, t)

visible : (x : ℕ) → x < 16 → (hex_char x == 0) ≡ false
unfolding hex_char
visible x h = ground arith

hex_loop_digits :
    (rounds : ℕ) (no_zeroes : Bool) (n : ℕ) (s : Console)
    → hex_loop rounds no_zeroes n s ≡ monitor_write (hex_digits rounds no_zeroes n) s
unfolding hex_loop hex_digits monitor_write
hex_loop_digits zero no_zeroes n s = rw (visible (n % 16) (omega arith)) refl
hex_loop_digits (suc rounds) no_zeroes n s =
    let tmp = n / 2 ^ (4 * suc rounds) % 16 in
    elim (Bool-cases ((tmp == 0) && no_zeroes)) [
      | inl skip ↦ rw skip (hex_loop_digits rounds true n s)
      | inr show ↦ rw (show, visible tmp (omega arith)) (hex_loop_digits rounds false n _)
    ]

-- `monitor_write_hex` prints "0x" and digits in base 16 that read back as the number.
pub monitor_write_hex_text :
    (n : ℕ) (s : Console)
    → n < 2 ^ 32
    → (monitor_write_hex n s ≡ monitor_write (48 ∷ (120 ∷ hex_digits 7 true n)) s)
      × (read_hex 0 (hex_digits 7 true n) ≡ n)
unfolding monitor_write_hex monitor_write
monitor_write_hex_text n s h =
    (hex_loop_digits 7 true n _, read_hex-digits 7 true n 0 (omega arith) (inr refl))

dec_digits-digits : (room n : ℕ) → dec_digits room n ≡ digits room n 10
unfolding dec_digits digits digit_char
dec_digits-digits zero n = refl
dec_digits-digits (suc room) n =
    let d : ltb (n % 10) 10 ≡ true = ground arith in rw (d, dec_digits-digits room (n / 10)) refl

-- `monitor_write_dec` prints a number below 2^31 as `print_uint` of the C library does, and
-- nothing at all for the other ones.
pub monitor_write_dec_text :
    (n : ℕ) (s : Console)
    → monitor_write_dec n s ≡ monitor_write (if ltb n (2 ^ 31) then print_uint n 10 else []) s
unfolding monitor_write_dec print_uint monitor_write
monitor_write_dec_text n s = elim (Bool-cases (n == 0)) [
  | inl z ↦ let e : n ≡ 0 = ground arith in rw e refl
  | inr nz ↦ elim (Bool-cases (leb (2 ^ 31) n)) [
    | inl big ↦ let g : ltb n (2 ^ 31) ≡ false = ground arith in rw (nz, big, g) refl
    | inr small ↦
        let l : ltb n (2 ^ 31) ≡ true = ground arith in
        rw (nz, small, l, dec_digits-digits 32 n) refl
  ]
]
