-- ===== src/Base/Bytes.antt =====
-- Single bits of a byte: the shifts and masks of the C sources, and their laws, which are checked
-- for every byte and every position.
use Prim.Native.Nat.{ℕ, zero, suc, ◌-◌, ◌/◌, ◌%◌, ◌^◌, ◌<◌, bit_and, bit_or}
use mathlib.Core.Path.{◌≡◌, refl}
use mathlib.Core.Bool.{Bool, true, ◌&&◌}
use native.Mathlib.Omega.{arith}
use artyom_x.Base.Tests.{ltb, ◌==◌, ==_iff, ltb→lt, if◌then◌else◌}

-- `b | (1 << k)`, `b & ~(1 << k)` and `(b >> k) & 1` on a `u8int`.
unfoldable pub byte_set : ℕ → ℕ → ℕ
byte_set b k = bit_or b (2 ^ k) % 256

unfoldable pub byte_clear : ℕ → ℕ → ℕ
byte_clear b k = bit_and b (255 - 2 ^ k % 256)

unfoldable pub byte_test : ℕ → ℕ → ℕ
byte_test b k = b / 2 ^ k % 2

-- Every number less than `bound` passes a test.
unfoldable pub passes : (ℕ → Bool) → ℕ → Bool
passes test zero = true
passes test (suc bound) = passes test bound && test bound

pub passes→test :
    (test : ℕ → Bool) (bound v : ℕ) → v < bound → passes test bound ≡ true → test v ≡ true
unfolding passes
passes→test test zero v l all = elim l [ ]
passes→test test (suc bound) v l all = ground (arith, passes→test test bound v)

-- A statement about a byte and two positions, checked by evaluation.
abbrev check3 : (ℕ → ℕ → ℕ → Bool) → Bool
check3 p = passes (λ b. passes (λ k. passes (λ j. p b k j) 8) 8) 256

check3_sound :
    (p : ℕ → ℕ → ℕ → Bool) (b k j : ℕ) → check3 p ≡ true → b < 256 → k < 8 → j < 8 → p b k j ≡ true
check3_sound p b k j h hb hk hj =
    passes→test _ 8 j hj (passes→test _ 8 k hk (passes→test _ 256 b hb h))

set_table :
    check3 (λ b k j. byte_test (byte_set b k) j == (if j == k then 1 else byte_test b j)) ≡ true
unfolding passes byte_test byte_set
set_table = refl

clear_table :
    check3 (λ b k j. byte_test (byte_clear b k) j == (if j == k then 0 else byte_test b j)) ≡ true
unfolding passes byte_test byte_clear
clear_table = refl

bound_table : check3 (λ b k j. ltb (byte_set b k) 256 && ltb (byte_clear b k) 256) ≡ true
unfolding passes byte_set byte_clear
bound_table = refl

module _ (b k j : ℕ) (hb : b < 256) (hk : k < 8) where
  pub byte_test-set : j < 8 → byte_test (byte_set b k) j ≡ (if j == k then 1 else byte_test b j)
  byte_test-set hj = (==_iff _ _).0 (check3_sound _ b k j set_table hb hk hj)

  pub byte_test-clear : j < 8 → byte_test (byte_clear b k) j ≡ (if j == k then 0 else byte_test b j)
  byte_test-clear hj = (==_iff _ _).0 (check3_sound _ b k j clear_table hb hk hj)

  pub byte_set-lt : j < 8 → byte_set b k < 256
  byte_set-lt hj = ltb→lt _ _ (ground (arith, check3_sound _ b k j bound_table hb hk hj))

  pub byte_clear-lt : j < 8 → byte_clear b k < 256
  byte_clear-lt hj = ltb→lt _ _ (ground (arith, check3_sound _ b k j bound_table hb hk hj))

pub byte_test_bit : (b k : ℕ) → byte_test b k < 2
unfolding byte_test
byte_test_bit b k = omega arith

ones_table : passes (λ k. byte_test 255 k == 1) 8 ≡ true
unfolding passes byte_test
ones_table = refl

pub byte_test_ones : (k : ℕ) → k < 8 → byte_test 255 k ≡ 1
byte_test_ones k h = (==_iff _ _).0 (passes→test _ 8 k h ones_table)
