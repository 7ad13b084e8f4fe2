-- ===== src/Pmm/Init.antt =====
-- `pmm_init` of mm/pmm.c against a description of the memory map: which pages are free afterwards,
-- and how many pages there are.
use Prim.Native.Nat.{min}
use artyom_x.Base.{
  ℕ, zero, suc, ◌/◌, ◌%◌, ◌≤◌, ◌<◌, ◌≡◌, refl, ap, ◌∙◌, true, ◌||◌, List, [], not, sym, arith, ltb,
  ◌==◌, if◌then◌else◌, Bool-cases, inl, inr, byte_test_ones,
}
use artyom_x.Pmm.{
  Pmm, Mbi, MmapEntry, bitmap_test, max_pages, bitmap_size, page_size, mark_region, end_page, reset,
  clamp_top, pmm_init,
}
use artyom_x.Pmm.Bitmap.{IsBytes}
use artyom_x.Pmm.Count.{IsCounted, free_below}
use artyom_x.Pmm.Region.{mark_region-Marks}
use artyom_x.Pmm.MemoryMap.{
  entries_from, mmap_entries, any_touches, AllFit, top_page, add_entries, init_loop-add_entries,
  add_entries-Added,
}

reset_used : (s : Pmm) (q : ℕ) → q < max_pages → bitmap_test (reset s).bitmap q ≡ 1
unfolding reset bitmap_test
reset_used s q h =
    let inside : ltb (q / 8) bitmap_size ≡ true = ground arith in
    rw inside (byte_test_ones (q % 8) (omega arith))

free_below-reset : (s : Pmm) (n : ℕ) → n ≤ max_pages → free_below (reset s).bitmap n ≡ 0
unfolding free_below
free_below-reset s zero h = refl
free_below-reset s (suc n) h =
    ground (arith, reset_used s n (omega arith), free_below-reset s n (omega arith))

reset_highest : (s : Pmm) → (reset s).highest_page ≡ 0
unfolding reset
reset_highest s = refl

reset_hint : (s : Pmm) → (reset s).last_hint ≡ 0
unfolding reset
reset_hint s = refl

reset-IsCounted : (s : Pmm) → IsBytes s.bitmap → IsCounted (reset s)
unfolding reset
reset-IsCounted s h = record {
  bytes = λ i. ground (arith, h i);
  counted = sym (free_below-reset s max_pages (omega arith));
}

clamp_bitmap : (s : Pmm) → (clamp_top s).bitmap ≡ s.bitmap
unfolding clamp_top
clamp_bitmap s = ground arith

clamp_count : (s : Pmm) → (clamp_top s).free_count ≡ s.free_count
unfolding clamp_top
clamp_count s = ground arith

clamp_hint : (s : Pmm) → (clamp_top s).last_hint ≡ s.last_hint
unfolding clamp_top
clamp_hint s = ground arith

clamp_highest : (s : Pmm) → (clamp_top s).highest_page ≡ min s.highest_page max_pages
unfolding clamp_top
clamp_highest s = ground arith

clamp_top-IsCounted : {s : Pmm} → IsCounted s → IsCounted (clamp_top s)
clamp_top-IsCounted {s} v = record {
  bytes = rw (clamp_bitmap s) v.bytes;
  counted = rw (clamp_bitmap s, clamp_count s) v.counted;
}

-- What holds of the allocator between two calls.
pub record IsValid (s : Pmm) : Type 0 where
  pub counted : IsCounted s
  pub top_in : s.highest_page ≤ max_pages
  pub page_zero : bitmap_test s.bitmap 0 ≡ 1
  pub hint_in : s.last_hint ≤ s.highest_page

-- A bitmap with a page for every entry: free where a usable entry touches it, except page 0.
pub record Describes (es : List MmapEntry) (s : Pmm) : Type 0 where
  pub valid : IsValid s
  pub bits :
      (q : ℕ)
      → q < max_pages
      → bitmap_test s.bitmap q ≡ (if (q == 0) || not (any_touches q es) then 1 else 0)
  pub tops : s.highest_page ≡ min (top_page es 0) max_pages

reset-Describes : (s : Pmm) → IsBytes s.bitmap → Describes [] (reset s)
unfolding top_page
reset-Describes s h = record {
  valid = record {
    counted = reset-IsCounted s h;
    top_in = omega (arith, reset_highest s);
    page_zero = reset_used s 0 (omega arith);
    hint_in = omega (arith, reset_hint s);
  };
  bits = λ q l. ground (arith, reset_used s q l);
  tops = omega (arith, reset_highest s);
}

end_page_zero : end_page 0 page_size ≡ 1
unfolding end_page
end_page_zero = refl

-- Page 0 is taken last.
reserve-Describes :
    (es : List MmapEntry) (s t : Pmm)
    → IsCounted t
    → ((q : ℕ) → q < max_pages → bitmap_test t.bitmap q ≡ (if any_touches q es then 0 else 1))
    → t.highest_page ≡ min (top_page es 0) max_pages
    → t.last_hint ≡ 0
    → Describes es (mark_region 0 page_size true t)
reserve-Describes es s t v bits tops hint =
    let m = mark_region-Marks 0 page_size true v (omega arith) in
    record {
      valid = record {
        counted = m.valid;
        top_in = omega (arith, m.same_top, tops);
        page_zero = ground (arith, m.bits 0, end_page_zero);
        hint_in = omega (arith, m.same_hint, hint);
      };
      bits = λ q l. ground (arith, m.bits q, bits q l, end_page_zero);
      tops = omega (arith, m.same_top, tops);
    }

map-Describes :
    (es : List MmapEntry) (s : Pmm)
    → IsBytes s.bitmap
    → AllFit es
    → Describes es (mark_region 0 page_size true (clamp_top (add_entries es (reset s))))
map-Describes es s h fit =
    let t = add_entries es (reset s) in
    let a = add_entries-Added es (reset s) (reset-IsCounted s h) fit in
    reserve-Describes es s (clamp_top t) (clamp_top-IsCounted a.valid)
      (λ q l. ground (arith, clamp_bitmap t, a.bits q l, reset_used s q l))
      (clamp_highest t ∙ ap (λ n. min n max_pages) (a.tops ∙ ap (top_page es) (reset_highest s)))
      (clamp_hint t ∙ a.hints ∙ reset_hint s)

pmm_init-Describes :
    (m : Mbi) (s : Pmm)
    → IsBytes s.bitmap
    → AllFit (mmap_entries m)
    → Describes (mmap_entries m) (pmm_init m s)
unfolding pmm_init mmap_entries
pmm_init-Describes m s h = elim (Bool-cases ((m.flags / 64 % 2 == 0) || (m.mmap_addr == 0))) [
  | inl e ↦ rw e (λ fit. reset-Describes s h)
  | inr e ↦
      rw (e, init_loop-add_entries m.mmap m.mmap_length 4096 0 (reset s))
        (map-Describes (entries_from m.mmap m.mmap_length 4096 0) s h)
]

module _ (m : Mbi) (s : Pmm) (h : IsBytes s.bitmap) (fit : AllFit (mmap_entries m)) where
  -- After `pmm_init` a page below PMM_MAX_PAGES is free exactly if it is not page 0 and a usable
  -- entry of the memory map has a byte in it. (The bitmap holds bytes before, and the entries end
  -- at least one page below 2^64.)
  pub pmm_init_pages :
      (q : ℕ)
      → q < max_pages
      → bitmap_test (pmm_init m s).bitmap q
        ≡ (if (q == 0) || not (any_touches q (mmap_entries m)) then 1 else 0)
  pmm_init_pages q l = (pmm_init-Describes m s h fit).bits q l

  -- `pmm_init` establishes the invariant of the allocator: the counter is the number of free pages
  -- of the bitmap, page 0 is in use, and the hint lies within the pages tracked. The number of
  -- pages tracked is the end of the last usable entry in whole pages, at most PMM_MAX_PAGES.
  pub pmm_init-IsValid :
      IsValid (pmm_init m s)
      × ((pmm_init m s).highest_page ≡ min (top_page (mmap_entries m) 0) max_pages)
  pmm_init-IsValid = let d = pmm_init-Describes m s h fit in (d.valid, d.tops)
