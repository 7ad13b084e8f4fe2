-- ===== src/Pmm/Count.antt =====
-- The number of free pages in the bitmap of mm/pmm.c, and the invariant that `pmm_free_count` is it.
use artyom_x.Base.{ℕ, zero, suc, ◌+◌, ◌≤◌, ◌<◌, ◌≡◌, refl, arith, ltb, ◌==◌, if◌then◌else◌}
use artyom_x.Pmm.{
  Bitmap, Pmm, bitmap_set, bitmap_clear, bitmap_test, max_pages, take_page, give_page, dec64, inc64,
  u64_mod,
}
use artyom_x.Pmm.Bitmap.{
  IsBytes, bitmap_set-IsBytes, bitmap_clear-IsBytes, bitmap_test-set, bitmap_test-clear,
}

unfoldable pub free_below : Bitmap → ℕ → ℕ
free_below bm zero = 0
free_below bm (suc n) = (if bitmap_test bm n == 0 then 1 else 0) + free_below bm n

pub free_below-le : (bm : Bitmap) (n : ℕ) → free_below bm n ≤ n
unfolding free_below
free_below-le bm zero = omega arith
free_below-le bm (suc n) = ground (arith, free_below-le bm n)

-- Where the bits below `n` agree, so do the counts.
pub free_below-same :
    (a b : Bitmap) (n : ℕ)
    → ((q : ℕ) → q < n → bitmap_test a q ≡ bitmap_test b q)
    → free_below a n ≡ free_below b n
unfolding free_below
free_below-same a b zero h = refl
free_below-same a b (suc n) h =
    ground (arith, h n (omega arith), free_below-same a b n (λ q l. h q (omega arith)))

module _ (bm : Bitmap) (p : ℕ) (h : IsBytes bm) where
  -- Taking a free page lowers the count below any `n` above it.
  pub free_below-set :
      (n : ℕ)
      → bitmap_test bm p ≡ 0
      → free_below (bitmap_set bm p) n + (if ltb p n then 1 else 0) ≡ free_below bm n
  unfolding free_below
  free_below-set zero z = ground arith
  free_below-set (suc n) z = ground (arith, free_below-set n z, bitmap_test-set bm p h n)

  pub free_below-clear :
      (n : ℕ)
      → bitmap_test bm p ≡ 1
      → free_below (bitmap_clear bm p) n ≡ free_below bm n + (if ltb p n then 1 else 0)
  unfolding free_below
  free_below-clear zero z = ground arith
  free_below-clear (suc n) z = ground (arith, free_below-clear n z, bitmap_test-clear bm p h n)

-- The bitmap holds bytes, and the counter counts its free pages.
pub record IsCounted (s : Pmm) : Type 0 where
  pub bytes : IsBytes s.bitmap
  pub counted : s.free_count ≡ free_below s.bitmap max_pages

module _ {s : Pmm} (p : ℕ) (v : IsCounted s) (in_map : p < max_pages) where
  take_counts :
      (n : ℕ)
      → n < u64_mod
      → p < n
      → bitmap_test s.bitmap p ≡ 0
      → dec64 (free_below s.bitmap n) ≡ free_below (bitmap_set s.bitmap p) n
  take_counts n small l z =
      ground (arith, free_below-set s.bitmap p v.bytes n z, free_below-le s.bitmap n)

  give_counts :
      (n : ℕ)
      → n < u64_mod
      → p < n
      → bitmap_test s.bitmap p ≡ 1
      → inc64 (free_below s.bitmap n) ≡ free_below (bitmap_clear s.bitmap p) n
  give_counts n small l z =
      ground
        (arith, free_below-clear s.bitmap p v.bytes n z, free_below-le (bitmap_clear s.bitmap p) n)

  pub take_page-IsCounted : bitmap_test s.bitmap p ≡ 0 → IsCounted (take_page p s)
  unfolding take_page
  take_page-IsCounted z = record {
    bytes = bitmap_set-IsBytes s.bitmap p v.bytes;
    counted = ground (arith, v.counted, take_counts max_pages (omega arith) in_map z);
  }

  pub give_page-IsCounted : bitmap_test s.bitmap p ≡ 1 → IsCounted (give_page p s)
  unfolding give_page
  give_page-IsCounted z = record {
    bytes = bitmap_clear-IsBytes s.bitmap p v.bytes;
    counted = ground (arith, v.counted, give_counts max_pages (omega arith) in_map z);
  }

  -- Neither step of the counter wraps.
  pub take_page_count : bitmap_test s.bitmap p ≡ 0 → (take_page p s).free_count + 1 ≡ s.free_count
  unfolding take_page
  take_page_count z = ground (
    arith,
    v.counted,
    take_counts max_pages (omega arith) in_map z,
    free_below-set s.bitmap p v.bytes max_pages z,
    free_below-le s.bitmap max_pages,
  )
