-- ===== src/Pmm.antt =====
-- The physical page-frame allocator, mm/pmm.c: one bit for each 4 KiB page, set while the page is
-- in use. A function that changes the static variables returns the new `Pmm`; loops recur on the
-- rounds that are left.
pub mod Bitmap
pub mod Count
pub mod Region
pub mod MemoryMap
pub mod Init
pub mod Search
pub mod Alloc
pub mod Free
mod Tests
use artyom_x.Base.{
  ℕ, zero, suc, ◌+◌, ◌-◌, ◌*◌, ◌/◌, ◌%◌, ◌^◌, ◌<◌, ◌||◌, Bool, true, false, Option, none, some, ltb,
  leb, ◌==◌, if◌then◌else◌, byte_set, byte_clear, byte_test,
}

abbrev pub page_size : ℕ
page_size = 4096

abbrev pub u64_mod : ℕ
u64_mod = 2 ^ 64

-- PMM_MAX_PAGES, 16 GiB of 4 KiB pages, and PMM_BITMAP_SIZE.
abbrev pub max_pages : ℕ
max_pages = 4194304

abbrev pub bitmap_size : ℕ
bitmap_size = 524288

-- `pmm_bitmap` as its bytes by index.
abbrev pub Bitmap : Type 0
Bitmap = ℕ → ℕ

pub record Pmm : Type 0 where
  pub bitmap : Bitmap
  pub highest_page : ℕ
  pub free_count : ℕ
  pub last_hint : ℕ

pub bitmap_set : Bitmap → ℕ → Bitmap
bitmap_set bm page i = if i == page / 8 then byte_set (bm i) (page % 8) else bm i

pub bitmap_clear : Bitmap → ℕ → Bitmap
bitmap_clear bm page i = if i == page / 8 then byte_clear (bm i) (page % 8) else bm i

pub bitmap_test : Bitmap → ℕ → ℕ
bitmap_test bm page = byte_test (bm (page / 8)) (page % 8)

-- `x--` and `x++` on a `u64int`.
abbrev pub dec64 : ℕ → ℕ
dec64 x = (x + u64_mod - 1) % u64_mod

abbrev pub inc64 : ℕ → ℕ
inc64 x = (x + 1) % u64_mod

-- What a page goes through when it is taken and when it is given back.
pub take_page : ℕ → Pmm → Pmm
take_page p s = record s { bitmap = bitmap_set s.bitmap p; free_count = dec64 s.free_count }

pub give_page : ℕ → Pmm → Pmm
give_page p s = record s { bitmap = bitmap_clear s.bitmap p; free_count = inc64 s.free_count }

-- The body of the loop of `mark_region`, and the loop.
pub mark_page : Bool → ℕ → Pmm → Pmm
mark_page true p s = if bitmap_test s.bitmap p == 0 then take_page p s else s
mark_page false p s = if bitmap_test s.bitmap p == 0 then s else give_page p s

pub mark_loop : Bool → ℕ → ℕ → Pmm → Pmm
mark_loop used zero p s = s
mark_loop used (suc n) p s = mark_loop used n (p + 1) (mark_page used p s)

-- The page after the last one of a region; the sum of the source wraps.
pub end_page : ℕ → ℕ → ℕ
end_page base len =
    let e = (base + len + page_size - 1) % u64_mod / page_size in
    if ltb max_pages e then max_pages else e

pub mark_region : ℕ → ℕ → Bool → Pmm → Pmm
mark_region base len used s =
    if len == 0
    then s
    else mark_loop used (end_page base len - base / page_size) (base / page_size) s

-- The fields of `mbi` that `pmm_init` reads, and the bytes of the memory map from its address on.
pub record Mbi : Type 0 where
  pub flags : ℕ
  pub mmap_length : ℕ
  pub mmap_addr : ℕ
  pub mmap : ℕ → ℕ

pub read_u32 : (ℕ → ℕ) → ℕ → ℕ
read_u32 mem off = mem off + 256 * mem (off + 1) + 65536 * mem (off + 2) + 16777216 * mem (off + 3)

-- `struct mb_mmap_entry`, its two halves of an address put together.
pub record MmapEntry : Type 0 where
  pub size : ℕ
  pub base : ℕ
  pub len : ℕ
  pub kind : ℕ

pub read_entry : (ℕ → ℕ) → ℕ → MmapEntry
read_entry mem off = record {
  size = read_u32 mem off;
  base = read_u32 mem (off + 8) * 2 ^ 32 + read_u32 mem (off + 4);
  len = read_u32 mem (off + 16) * 2 ^ 32 + read_u32 mem (off + 12);
  kind = read_u32 mem (off + 20);
}

-- One entry: a usable region is freed, and the number of pages grows to its end.
pub add_entry : MmapEntry → Pmm → Pmm
add_entry e s =
    if e.kind == 1
    then (let t = mark_region e.base e.len false s in
        let top = (e.base + e.len) % u64_mod / page_size in
        if ltb t.highest_page top then record t { highest_page = top } else t)
    else s

-- The loop over the map: `guard` rounds at most, and `off` is a `u32int`.
pub init_loop : (ℕ → ℕ) → ℕ → ℕ → ℕ → Pmm → Pmm
init_loop mem len zero off s = s
init_loop mem len (suc guard) off s =
    let e = read_entry mem off in
    let rest = init_loop mem len guard ((off + (e.size + 4) % 2 ^ 32) % 2 ^ 32) (add_entry e s) in
    if ltb len (off + 24) then s else if e.size == 0 then s else rest

pub reset : Pmm → Pmm
reset s = record {
  bitmap = λ i. if ltb i bitmap_size then 0xff else s.bitmap i;
  highest_page = 0;
  free_count = 0;
  last_hint = 0;
}

pub clamp_top : Pmm → Pmm
clamp_top s = if ltb max_pages s.highest_page then record s { highest_page = max_pages } else s

pub pmm_init : Mbi → Pmm → Pmm
pmm_init m s =
    if (m.flags / 64 % 2 == 0) || (m.mmap_addr == 0)
    then reset s
    else mark_region 0 page_size true (clamp_top (init_loop m.mmap m.mmap_length 4096 0 (reset s)))

-- One pass of `pmm_alloc_pages`: `n` pages from `p` on, with the run of free pages met so far. The
-- run is shorter than the passes, so it does not wrap.
pub scan : Bitmap → ℕ → ℕ → ℕ → ℕ → ℕ → Option ℕ
scan bm count zero p run run_start = none
scan bm count (suc n) p run run_start =
    let start = if run == 0 then p else run_start in
    let on = scan bm count n (p + 1) (run + 1) start in
    let over = scan bm count n (p + 1) 0 run_start in
    if bitmap_test bm p == 0 then if run + 1 == count then some start else on else over

pub claim : ℕ → ℕ → Pmm → Pmm
claim zero p s = s
claim (suc n) p s = claim n (p + 1) (take_page p s)

-- A run is taken, the hint moves behind it, and the answer is its physical address.
pub grant : ℕ → ℕ → Pmm → ℕ × Pmm
grant count start s =
    let t = claim count start s in (start * page_size, record t { last_hint = start + count })

pub find_run : ℕ → Pmm → Option ℕ
find_run count s = elim (scan s.bitmap count (s.highest_page - s.last_hint) s.last_hint 0 0) [
  | some start ↦ some start
  | none ↦ if s.last_hint == 0 then none else scan s.bitmap count s.last_hint 0 0 0
]

pub pmm_alloc_pages : ℕ → Pmm → ℕ × Pmm
pmm_alloc_pages count s =
    if (count == 0) || (s.highest_page == 0)
    then (0, s)
    else elim (find_run count s) [ some start ↦ grant count start s | none ↦ (0, s) ]

pub pmm_alloc_page : Pmm → ℕ × Pmm
pmm_alloc_page s = pmm_alloc_pages 1 s

pub free_loop : ℕ → ℕ → Pmm → Pmm
free_loop zero p s = s
free_loop (suc n) p s =
    let rest = free_loop n (p + 1) (mark_page false p s) in if leb s.highest_page p then s else rest

pub pmm_free_pages : ℕ → ℕ → Pmm → Pmm
pmm_free_pages phys_addr count s =
    let start = phys_addr / page_size in
    let t = free_loop count start s in
    if ltb start t.last_hint then record t { last_hint = start } else t

pub pmm_free_page : ℕ → Pmm → Pmm
pmm_free_page phys_addr s = pmm_free_pages phys_addr 1 s

pub pmm_free_page_count : Pmm → ℕ
pmm_free_page_count s = s.free_count

pub pmm_total_page_count : Pmm → ℕ
pmm_total_page_count s = s.highest_page

pub pmm_used_page_count : Pmm → ℕ
pmm_used_page_count s = (s.highest_page + u64_mod - s.free_count) % u64_mod
