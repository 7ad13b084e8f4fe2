-- ===== src/Pmm/Tests.antt =====
-- The allocator of mm/pmm.c on a map of one usable region of four pages, from page 1 on.
use artyom_x.Base.{
  ℕ, ◌*◌, ◌<◌, ◌≡◌, ◌≢◌, ◌⊎◌, refl, List, [], ◌∷◌, arith, get_or, inl, byte_set, byte_clear,
  byte_test,
}
use artyom_x.Pmm.{
  Pmm, Mbi, bitmap_set, bitmap_clear, bitmap_test, take_page, give_page, mark_page, mark_loop,
  end_page, mark_region, read_u32, read_entry, add_entry, init_loop, reset, clamp_top, pmm_init,
  scan, claim, grant, find_run, pmm_alloc_pages, pmm_alloc_page, free_loop, pmm_free_pages,
  page_size,
}
use artyom_x.Pmm.MemoryMap.{entries_from, mmap_entries, top_page, AllFit}
use artyom_x.Pmm.Init.{IsValid, pmm_init_pages, pmm_init-IsValid}
use artyom_x.Pmm.Alloc.{Grants, pmm_alloc_pages-Grants, pmm_alloc_pages_finds, pmm_alloc_page_finds}
use artyom_x.Pmm.Free.{Frees, pmm_free_pages-Frees, pmm_free_pages-alloc}

abbrev map_bytes : List ℕ
map_bytes =
    20 ∷ 0 ∷ 0 ∷ 0 ∷ 0 ∷ 16 ∷ 0 ∷ 0 ∷ 0 ∷ 0 ∷ 0 ∷ 0 ∷ 0 ∷ 64 ∷ 0 ∷ 0 ∷ 0 ∷ 0 ∷ 0 ∷ 0 ∷ 1 ∷ []

abbrev small_map : Mbi
small_map = record {
  flags = 64;
  mmap_length = 24;
  mmap_addr = 0x9000;
  mmap = λ i. get_or map_bytes i 0;
}

-- The static variables before `pmm_init`.
abbrev blank : Pmm
blank = record { bitmap = λ i. 0; highest_page = 0; free_count = 0; last_hint = 0 }

-- Shared unfolding for the runs below.
run_init : Pmm
unfolding pmm_init mark_region end_page mark_loop mark_page take_page give_page bitmap_set
    bitmap_clear bitmap_test byte_set byte_clear byte_test init_loop read_entry read_u32 add_entry
    reset clamp_top
run_init = pmm_init small_map blank

run_alloc : ℕ → Pmm → ℕ × Pmm
unfolding pmm_alloc_pages find_run scan grant claim take_page bitmap_set bitmap_test byte_set
    byte_test
run_alloc count s = pmm_alloc_pages count s

run_free : ℕ → ℕ → Pmm → Pmm
unfolding pmm_free_pages free_loop mark_page give_page bitmap_clear bitmap_test byte_clear byte_test
run_free addr count s = pmm_free_pages addr count s

fit : AllFit (mmap_entries small_map)
unfolding mmap_entries entries_from read_entry read_u32
fit = omega arith

init_runs :
    (run_init.free_count ≡ 4) × (run_init.highest_page ≡ 5) × (bitmap_test run_init.bitmap 5 ≡ 1)
unfolding run_init
init_runs = (refl, refl, refl)

alloc_runs :
    let (a, t) = run_alloc 2 run_init in
    (a ≡ 4096) × (t.free_count ≡ 2) × ((run_alloc 3 t).0 ≡ 0) × ((run_alloc 2 t).0 ≡ 12288)
unfolding run_alloc run_init
alloc_runs = (refl, refl, refl, refl)

-- Pages 1 to 4 are all free again and the hint lies at page 2, so no pass sees the run of four.
straddled_run :
    let t0 = (run_alloc 1 run_init).1 in
    let t1 = (run_alloc 1 t0).1 in
    let t2 = run_free 4096 1 t1 in
    let t3 = (run_alloc 2 t2).1 in
    let t4 = run_free 12288 2 (run_free 8192 1 t3) in
    (t4.free_count ≡ 4) × (t4.last_hint ≡ 2) × ((run_alloc 4 t4).0 ≡ 0)
unfolding run_alloc run_init run_free
straddled_run = (refl, refl, refl)

small-IsValid : IsValid (pmm_init small_map blank)
small-IsValid = (pmm_init-IsValid small_map blank (λ i. omega arith) fit).0

pmm_init_pages_example : bitmap_test (pmm_init small_map blank).bitmap 2 ≡ 0
unfolding mmap_entries entries_from read_entry read_u32
pmm_init_pages_example = pmm_init_pages small_map blank (λ i. omega arith) fit 2 (omega arith)

pmm_init-IsValid_example :
    IsValid (pmm_init small_map blank) × ((pmm_init small_map blank).highest_page ≡ 5)
unfolding mmap_entries entries_from read_entry read_u32 top_page
pmm_init-IsValid_example = pmm_init-IsValid small_map blank (λ i. omega arith) fit

abbrev booted : Pmm
booted = pmm_init small_map blank

pmm_alloc_pages-Grants_example :
    let (a, t) = pmm_alloc_pages 2 booted in
    ((a ≡ 0) × (t ≡ booted)) ⊎ ((r : ℕ) × (a ≡ r * page_size) × Grants 2 r booted t)
pmm_alloc_pages-Grants_example = pmm_alloc_pages-Grants 2 small-IsValid (omega arith)

-- Page `p` of the map is free.
free_page : (p : ℕ) → 0 < p → p < 5 → bitmap_test booted.bitmap p ≡ 0
unfolding mmap_entries entries_from read_entry read_u32
free_page p h l =
    ground (arith, pmm_init_pages small_map blank (λ i. omega arith) fit p (omega arith))

booted_highest : booted.highest_page ≡ 5
unfolding mmap_entries entries_from read_entry read_u32 top_page
booted_highest = (pmm_init-IsValid small_map blank (λ i. omega arith) fit).1

booted_hint : booted.last_hint ≡ 0
unfolding run_init
booted_hint = refl

pmm_alloc_pages_finds_example : (pmm_alloc_pages 3 booted).0 ≢ 0
pmm_alloc_pages_finds_example =
    pmm_alloc_pages_finds 3 small-IsValid (omega arith) 2
      (λ q a b. free_page q (omega arith) (omega arith)) (omega (arith, booted_highest))
      (inl (omega (arith, booted_hint)))

-- With the hint at page 2 the run of four pages lies on both sides of it.
hinted-IsValid : IsValid (record booted { last_hint = 2 })
hinted-IsValid = record {
  counted = record { bytes = small-IsValid.counted.bytes; counted = small-IsValid.counted.counted };
  top_in = small-IsValid.top_in;
  page_zero = small-IsValid.page_zero;
  hint_in = omega (arith, booted_highest);
}

pmm_alloc_page_finds_example : (pmm_alloc_page booted).0 ≢ 0
pmm_alloc_page_finds_example =
    pmm_alloc_page_finds 3 small-IsValid (omega (arith, booted_highest))
      (free_page 3 (omega arith) (omega arith))

pmm_free_pages-Frees_example : Frees 2 1 booted (pmm_free_pages 8192 1 booted)
pmm_free_pages-Frees_example = pmm_free_pages-Frees 8192 1 small-IsValid (omega arith)

pmm_free_pages-alloc_example :
    let (a, t) = pmm_alloc_pages 3 booted in
    let u = pmm_free_pages a 3 t in
    (bitmap_test u.bitmap 2 ≡ bitmap_test booted.bitmap 2) × (u.free_count ≡ booted.free_count)
pmm_free_pages-alloc_example =
    pmm_free_pages-alloc 3 2 small-IsValid (omega arith) pmm_alloc_pages_finds_example
