-- ===== src/Pmm/Bitmap.antt =====
-- The bits of mm/pmm.c read back what was written.
use artyom_x.Base.{
  ℕ, ◌/◌, ◌%◌, ◌<◌, ◌≡◌, arith, ◌==◌, if◌then◌else◌, byte_set-lt, byte_clear-lt, byte_test-set,
  byte_test-clear, byte_test_bit,
}
use artyom_x.Pmm.{Bitmap, bitmap_set, bitmap_clear, bitmap_test}

abbrev pub IsBytes : Bitmap → Type 0
IsBytes bm = (i : ℕ) → bm i < 256

module _ (bm : Bitmap) (p : ℕ) (h : IsBytes bm) where
  pub bitmap_set-IsBytes : IsBytes (bitmap_set bm p)
  unfolding bitmap_set
  bitmap_set-IsBytes i =
      ground (arith, h i, byte_set-lt (bm i) (p % 8) 0 (h i) (omega arith) (omega arith))

  pub bitmap_clear-IsBytes : IsBytes (bitmap_clear bm p)
  unfolding bitmap_clear
  bitmap_clear-IsBytes i =
      ground (arith, h i, byte_clear-lt (bm i) (p % 8) 0 (h i) (omega arith) (omega arith))

  pub bitmap_test-set :
      (q : ℕ) → bitmap_test (bitmap_set bm p) q ≡ (if q == p then 1 else bitmap_test bm q)
  unfolding bitmap_test bitmap_set
  bitmap_test-set q =
      ground
        (arith, byte_test-set (bm (q / 8)) (p % 8) (q % 8) (h (q / 8)) (omega arith) (omega arith))

  pub bitmap_test-clear :
      (q : ℕ) → bitmap_test (bitmap_clear bm p) q ≡ (if q == p then 0 else bitmap_test bm q)
  unfolding bitmap_test bitmap_clear
  bitmap_test-clear q =
      ground (
        arith,
        byte_test-clear (bm (q / 8)) (p % 8) (q % 8) (h (q / 8)) (omega arith) (omega arith),
      )

pub bitmap_test_bit : (bm : Bitmap) (p : ℕ) → bitmap_test bm p < 2
unfolding bitmap_test
bitmap_test_bit bm p = byte_test_bit (bm (p / 8)) (p % 8)
