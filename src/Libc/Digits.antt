-- ===== src/Libc/Digits.antt =====
-- The digit loops of lib/libc.c: they end inside their buffer.
use artyom_x.Base.{ℕ, zero, suc, ◌+◌, ◌*◌, ◌/◌, ◌^◌, ◌≤◌, ◌<◌, ◌≡◌, refl, true, arith, ◌==◌}
use artyom_x.Libc.{digits}
use native.Mathlib.Nat.{pow-suc, div-mul-le_self, mul-le-mul_left}

-- A division by a base halves at least.
halved : (n base m : ℕ) → 2 ≤ base → n < m * 2 → n / base < m
halved n base m two h =
    let whole : n / base * base ≤ n = div-mul-le_self n base in
    let twice : n / base * 2 ≤ n / base * base = mul-le-mul_left (n / base) two in
    omega (arith, whole, twice)

digits_end :
    (room more n base : ℕ)
    → 2 ≤ base
    → n < 2 ^ room
    → digits (room + more) n base ≡ digits room n base
unfolding digits
digits_end zero zero n base two h = refl
digits_end zero (suc more) n base two h =
    let start : 0 + suc more ≡ suc more = omega arith in
    let z : (n == 0) ≡ true = ground (arith, h) in rw (start, z) refl
digits_end (suc room) more n base two h =
    let rest =
      digits_end room more (n / base) base two
        (halved n base (2 ^ room) two (rw (pow-suc 2 room) at h)) in
    let next : suc room + more ≡ suc (room + more) = omega arith in rw (next, rest) refl

-- The digit loop ends: however many bytes the buffer had beyond its 32, an `unsigned int` would get no
-- more digits, in any base from 2 on.
pub digits_ends :
    (more n base : ℕ) → n < 2 ^ 32 → 2 ≤ base → digits (32 + more) n base ≡ digits 32 n base
digits_ends more n base h two = digits_end 32 more n base two h
