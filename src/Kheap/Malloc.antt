-- ===== src/Kheap/Malloc.antt =====
-- `kmalloc` of mm/kheap.c: it keeps the arenas well formed, and hands out one new block, large
-- enough, beside those that are handed out already.
use artyom_x.Base.{
  ℕ, ◌+◌, ◌-◌, ◌*◌, ◌%◌, ◌≤◌, ◌<◌, ◌≡◌, ◌≢◌, ◌⊎◌, refl, true, false, List, [], ◌∷◌, ◌++◌, arith,
  leb, ◌==◌, Option-cases, inl, inr,
}
use artyom_x.Pmm.{Pmm, page_size, u64_mod, pmm_alloc_pages}
use artyom_x.Pmm.Init.{IsValid}
use artyom_x.Pmm.Alloc.{pmm_alloc_pages-Grants}
use artyom_x.Kheap.{
  Block, Arena, Heap, payload, header_size, arena_header_size, align16, place, alloc_blocks,
  set_blocks, alloc_arenas, fresh_block, arena_pages, new_arena, use_first, grow, kmalloc,
}
use artyom_x.Kheap.Tiling.{IsArena, AllArenas, all_used, Inserted}
use artyom_x.Kheap.Place.{place-Placed, head-PlacedIn, alloc_arenas-PlacedIn}

pub arena_pages_fit :
    (size : ℕ)
    → size + 8192 ≤ u64_mod
    → (size + arena_header_size + header_size ≤ arena_pages size * page_size)
      × (16 ≤ arena_pages size)
unfolding arena_pages
arena_pages_fit size h = ground arith

-- The arenas are well formed, and so is the page-frame allocator below them.
pub record IsHeap (h : Heap) : Type 0 where
  pub arenas : AllArenas h.arenas
  pub pages : IsValid h.pmm

fresh-IsArena :
    (addr pages : ℕ)
    → addr % 16 ≡ 0
    → 16 ≤ pages
    → IsArena (record {
      addr = addr;
      total_size = pages * page_size - arena_header_size;
      blocks = fresh_block addr pages ∷ [];
    })
unfolding fresh_block
fresh-IsArena addr pages m h = record {
  tiles = (refl, omega arith);
  coalesced = (refl, tt);
  aligned = (omega arith, tt);
  base = m;
}

-- What `kmalloc` has done when it hands out `p` for `bytes` bytes.
pub record Serves (bytes p : ℕ) (h h' : Heap) : Type 0 where
  pub valid : IsHeap h'
  pub start : p % 16 ≡ 0
  pub block : Block
  pub fresh : Inserted block (all_used h.arenas) (all_used h'.arenas)
  pub address : payload block ≡ p
  pub fits : bytes ≤ block.size

-- A block taken from a new arena.
arena-Serves :
    (addr pages size : ℕ) {h : Heap} (pmm' : Pmm)
    → IsHeap h
    → IsValid pmm'
    → addr % 16 ≡ 0
    → size % 16 ≡ 0
    → 16 ≤ pages
    → size + arena_header_size + header_size ≤ pages * page_size
    → Serves size (payload (fresh_block addr pages)) h (record {
      arenas =
          record {
            addr = addr;
            total_size = pages * page_size - arena_header_size;
            blocks = place (fresh_block addr pages) size ++ [];
          }
          ∷ h.arenas;
      pmm = pmm';
    })
unfolding fresh_block
arena-Serves addr pages size {h} pmm' v pv am sm hp fit =
    let a : Arena = record {
      addr = addr;
      total_size = pages * page_size - arena_header_size;
      blocks = fresh_block addr pages ∷ [];
    } in
    let valid = fresh-IsArena addr pages am hp in
    let r =
      head-PlacedIn a (place (fresh_block addr pages) size ++ []) h.arenas
        (place-Placed size (fresh_block addr pages) [] refl (omega arith)) in
    record {
      valid = record { arenas = r.valid sm (valid, v.arenas); pages = pv };
      start = r.start (valid, v.arenas);
      block = r.block;
      fresh = r.fresh;
      address = r.address;
      fits = r.fits;
    }

module _ (hhdm size : ℕ) {h : Heap} (v : IsHeap h) where
  grow-Serves :
      hhdm % 16 ≡ 0
      → size % 16 ≡ 0
      → size + 8192 ≤ u64_mod
      → let (p, h') = grow size h (new_arena hhdm size h) in
        ((p ≡ 0) × (h' ≡ h)) ⊎ Serves size p h h'
  unfolding grow new_arena use_first
  grow-Serves base m small =
      let f = arena_pages_fit size small in
      elim (pmm_alloc_pages-Grants (arena_pages size) v.pages (omega (arith, f.1))) [
        | inl (zeroed, same) ↦ rw zeroed (inl (refl, refl))
        | inr (r, address, g) ↦
            let found : ((pmm_alloc_pages (arena_pages size) h.pmm).0 == 0) ≡ false =
              ground (arith, address, g.positive) in
            rw found (
              inr (
                arena-Serves _ (arena_pages size) size _ v g.valid (omega (arith, address)) m f.1
                  f.0))
      ]

-- Where `kmalloc` is asked for at least one byte, and for at most 2^64 - 8208, it either answers 0
-- and changes nothing, or hands out a 16-byte aligned payload of a block that is large enough. That
-- block is new among the blocks that are handed out, all the others stay as they are, every arena
-- stays tiled by its blocks with no two free ones side by side, and the page-frame allocator stays
-- valid. (The direct map starts at a multiple of 16.)
pub kmalloc-Serves :
    (hhdm bytes : ℕ) {h : Heap}
    → IsHeap h
    → hhdm % 16 ≡ 0
    → bytes ≢ 0
    → bytes + 8208 ≤ u64_mod
    → let (p, h') = kmalloc hhdm bytes h in ((p ≡ 0) × (h' ≡ h)) ⊎ Serves bytes p h h'
unfolding kmalloc
kmalloc-Serves hhdm bytes {h} v base pos small =
    let asked : (bytes == 0) ≡ false = ground arith in
    rw asked (elim (Option-cases (alloc_arenas (align16 bytes) h.arenas)) [
      | inl miss ↦
          rw miss (elim (grow-Serves hhdm (align16 bytes) v base (omega arith) (omega arith)) [
            | inl failed ↦ inl failed
            | inr s ↦ inr (record {
              valid = s.valid;
              start = s.start;
              block = s.block;
              fresh = s.fresh;
              address = s.address;
              fits = omega (arith, s.fits);
            })
          ])
      | inr (r, hit) ↦ rw hit (
          let s = alloc_arenas-PlacedIn (align16 bytes) r.0 h.arenas r.1 hit in
          inr (record {
            valid = record { arenas = s.valid (omega arith) v.arenas; pages = v.pages };
            start = s.start v.arenas;
            block = s.block;
            fresh = s.fresh;
            address = s.address;
            fits = omega (arith, s.fits);
          }))
    ])

-- A request of the last 15 sizes of `size_t` wraps to 0 in ALIGN16: where the first block of the
-- first arena is free, `kmalloc` hands it out, however small it is.
pub kmalloc_overflow :
    (hhdm bytes : ℕ) (a : Arena) (b : Block) (bs : List Block) (more : List Arena) (pmm : Pmm)
    → u64_mod - 15 ≤ bytes
    → bytes < u64_mod
    → b.free ≡ true
    → (kmalloc hhdm bytes (record { arenas = record a { blocks = b ∷ bs } ∷ more; pmm = pmm })).0
      ≡ payload b
unfolding kmalloc alloc_arenas alloc_blocks set_blocks
kmalloc_overflow hhdm bytes a b bs more pmm big small f =
    let asked : (bytes == 0) ≡ false = ground arith in
    let wraps : align16 bytes ≡ 0 = omega arith in
    let fits : leb 0 b.size ≡ true = ground arith in rw (asked, wraps, f, fits)
