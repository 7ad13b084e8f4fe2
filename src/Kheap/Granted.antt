-- ===== src/Kheap/Granted.antt =====
-- Where the arenas of mm/kheap.c are: in pages that the page-frame allocator does not count as free, and
-- apart from one another. So what `kmalloc` hands out is no one else's.
use artyom_x.Base.{
  ℕ, ◌+◌, ◌-◌, ◌*◌, ◌%◌, ◌≤◌, ◌<◌, ◌≡◌, ◌≢◌, ◌⊎◌, inl, inr, refl, ap, false, some, List, [], ◌∷◌,
  arith, leb, ◌==◌, Option-cases, Bool-cases,
}
use artyom_x.Pmm.{Pmm, page_size, max_pages, u64_mod, bitmap_test, pmm_alloc_pages}
use artyom_x.Pmm.Alloc.{Grants, pmm_alloc_pages-Grants}
use artyom_x.Kheap.{
  Arena, Heap, arena_header_size, align16, alloc_blocks, set_blocks, alloc_arenas, set_freed,
  free_blocks, free_arenas, new_arena, arena_pages, use_first, grow, kmalloc,
}
use artyom_x.Kheap.Tiling.{all_used}
use artyom_x.Kheap.Apart.{ClearOf, spans, ApartOf, AllApart, all_used-AllClear, Inserted-ClearOf}
use artyom_x.Kheap.Malloc.{IsHeap, Serves, kmalloc-Serves, arena_pages_fit}

-- `n` bytes from `lo` on, in the direct map, are whole pages that are in use.
pub record InPages (hhdm : ℕ) (pmm : Pmm) (lo n : ℕ) : Type 0 where
  pub first : ℕ
  pub count : ℕ
  pub address : lo ≡ first * page_size + hhdm
  pub bytes : n ≡ count * page_size
  pub some_pages : 0 < count
  pub tracked : first + count ≤ max_pages
  pub in_use : (q : ℕ) → first ≤ q → q < first + count → bitmap_test pmm.bitmap q ≡ 1

abbrev pub AllInPages : ℕ → Pmm → List (ℕ × ℕ) → Type 0
AllInPages hhdm pmm [] = Unit
AllInPages hhdm pmm ((lo, n) ∷ more) = InPages hhdm pmm lo n × AllInPages hhdm pmm more

-- The arenas share no byte, and no page of one is free.
pub record IsGranted (hhdm : ℕ) (h : Heap) : Type 0 where
  pub apart : AllApart (spans h.arenas)
  pub in_pages : AllInPages hhdm h.pmm (spans h.arenas)

alloc_arenas-spans :
    (size p : ℕ) (xs ys : List Arena) → alloc_arenas size xs ≡ some (p, ys) → spans ys ≡ spans xs
unfolding alloc_arenas set_blocks
alloc_arenas-spans size p [] ys = λ found. cc
alloc_arenas-spans size p (a ∷ xs) ys = elim (Option-cases (alloc_blocks size a.blocks)) [
  | inr (r, hit) ↦ rw hit (λ found.
      let after : ◌≡◌ {A = List Arena} (record a { blocks = r.1 } ∷ xs) ys = ground arith in
      rw (← after) refl)
  | inl miss ↦ rw miss (elim (Option-cases (alloc_arenas size xs)) [
    | inl none_left ↦ rw none_left (λ found. cc)
    | inr (r, hit) ↦ rw hit (λ found.
        let after : a ∷ r.1 ≡ ys = ground arith in
        rw (← after) (
          ap (λ l. (a.addr, arena_header_size + a.total_size) ∷ l)
            (alloc_arenas-spans size r.0 xs r.1 hit)))
  ])
]

pub free_arenas-spans :
    (ptr : ℕ) (xs ys : List Arena) → free_arenas ptr xs ≡ some ys → spans ys ≡ spans xs
unfolding free_arenas set_freed
free_arenas-spans ptr [] ys = λ found. cc
free_arenas-spans ptr (a ∷ xs) ys = elim (Option-cases (free_blocks ptr a.blocks)) [
  | inr (r, hit) ↦ rw hit (λ found.
      let after : ◌≡◌ {A = List Arena} (record a { blocks = r } ∷ xs) ys = ground arith in
      rw (← after) refl)
  | inl miss ↦ rw miss (elim (Option-cases (free_arenas ptr xs)) [
    | inl none_left ↦ rw none_left (λ found. cc)
    | inr (r, hit) ↦ rw hit (λ found.
        let after : a ∷ r ≡ ys = ground arith in
        rw (← after) (
          ap (λ l. (a.addr, arena_header_size + a.total_size) ∷ l)
            (free_arenas-spans ptr xs r hit)))
  ])
]

pub same_spans-IsGranted :
    {hhdm : ℕ} {h : Heap} (ys : List Arena)
    → spans ys ≡ spans h.arenas
    → IsGranted hhdm h
    → IsGranted hhdm (record h { arenas = ys })
same_spans-IsGranted {hhdm} {h} ys e g = record {
  apart = rw e (g.apart);
  in_pages = rw e (g.in_pages);
}

-- Pages that were granted are none of those in use before, and leave these in use.
module _ (hhdm : ℕ) {count start : ℕ} {s t : Pmm} (g : Grants count start s t)
    (some_asked : 0 < count) where
  kept_pages : (lo n : ℕ) → InPages hhdm s lo n → InPages hhdm t lo n
  kept_pages lo n p = record {
    first = p.first;
    count = p.count;
    address = p.address;
    bytes = p.bytes;
    some_pages = p.some_pages;
    tracked = p.tracked;
    in_use = λ q a b. ground (arith, g.bits q, p.in_use q a b);
  }

  all_kept : (l : List (ℕ × ℕ)) → AllInPages hhdm s l → AllInPages hhdm t l
  all_kept [] p = tt
  all_kept ((lo, n) ∷ more) p = (kept_pages lo n p.0, all_kept more p.1)

  new_apart :
      (lo n : ℕ)
      → InPages hhdm s lo n
      → (start * page_size + hhdm + count * page_size ≤ lo) ⊎ (lo + n ≤ start * page_size + hhdm)
  new_apart lo n p = elim (Bool-cases (leb (p.first + p.count) start)) [
    | inl below ↦
        let le : p.first + p.count ≤ start = ground arith in
        inr (omega (arith, le, p.address, p.bytes))
    | inr not_below ↦
        let lt : start < p.first + p.count = ground arith in
        elim (Bool-cases (leb (start + count) p.first)) [
          | inl above ↦
              let le : start + count ≤ p.first = ground arith in
              inl (omega (arith, le, p.address, p.bytes))
          | inr not_above ↦
              let lt' : p.first < start + count = ground arith in
              elim (Bool-cases (leb p.first start)) [
                | inl at_start ↦
                    let le : p.first ≤ start = ground arith in
                    let a = g.was_free start (omega arith) (omega (arith, some_asked)) in
                    let b = p.in_use start le lt in absurd (omega (arith, a, b))
                | inr behind ↦
                    let le : start < p.first = ground arith in
                    let a = g.was_free p.first (omega (arith, le)) lt' in
                    let b = p.in_use p.first (omega arith) (omega (arith, p.some_pages)) in
                    absurd (omega (arith, a, b))
              ]
        ]
  ]

  new_ApartOf :
      (l : List (ℕ × ℕ))
      → AllInPages hhdm s l
      → ApartOf (start * page_size + hhdm) (count * page_size) l
  new_ApartOf [] p = tt
  new_ApartOf ((lo, n) ∷ more) p = (new_apart lo n p.0, new_ApartOf more p.1)

  new_InPages :
      start + count ≤ max_pages → InPages hhdm t (start * page_size + hhdm) (count * page_size)
  new_InPages top = record {
    first = start;
    count = count;
    address = refl;
    bytes = refl;
    some_pages = some_asked;
    tracked = top;
    in_use = λ q a b. ground (arith, g.bits q);
  }

module _ (hhdm size : ℕ) {h : Heap} (v : IsHeap h) (g : IsGranted hhdm h) where
  -- The direct map of all tracked pages ends within 64 bits.
  grow-IsGranted :
      hhdm + max_pages * page_size ≤ u64_mod
      → size + 8192 ≤ u64_mod
      → IsGranted hhdm (grow size h (new_arena hhdm size h)).1
  unfolding grow new_arena use_first
  grow-IsGranted map_fits small =
      let f = arena_pages_fit size small in
      elim (pmm_alloc_pages-Grants (arena_pages size) v.pages (omega (arith, f.1))) [
        | inl (zeroed, same) ↦ rw zeroed g
        | inr (r, address, granted) ↦
            let found : ((pmm_alloc_pages (arena_pages size) h.pmm).0 == 0) ≡ false =
              ground (arith, address, granted.positive) in
            let top : r + arena_pages size ≤ max_pages =
              omega (arith, granted.within, v.pages.top_in) in
            let place : ((pmm_alloc_pages (arena_pages size) h.pmm).0 + hhdm) % u64_mod
                ≡ r * page_size + hhdm =
              omega (arith, address, map_fits, top, f.1) in
            let whole : 16 + (arena_pages size * page_size - 16) ≡ arena_pages size * page_size =
              omega (arith, f.1) in
            let asked : 0 < arena_pages size = omega (arith, f.1) in
            rw (found, place)
              (record {
                apart =
                    rw whole (new_ApartOf hhdm granted asked (spans h.arenas) g.in_pages, g.apart);
                in_pages = rw whole (
                  new_InPages hhdm granted asked top,
                  all_kept hhdm granted asked (spans h.arenas) g.in_pages,
                );
              })
      ]

module _ (hhdm bytes : ℕ) {h : Heap} (v : IsHeap h) (g : IsGranted hhdm h) where
  kmalloc-IsGranted :
      hhdm + max_pages * page_size ≤ u64_mod
      → bytes ≢ 0
      → bytes + 8208 ≤ u64_mod
      → IsGranted hhdm (kmalloc hhdm bytes h).1
  unfolding kmalloc
  kmalloc-IsGranted map_fits pos small =
      let asked : (bytes == 0) ≡ false = ground arith in
      let size = align16 bytes in
      rw asked (elim (Option-cases (alloc_arenas size h.arenas)) [
        | inl miss ↦ rw miss (grow-IsGranted hhdm size v g map_fits (omega arith))
        | inr (r, hit) ↦
            rw hit (same_spans-IsGranted r.1 (alloc_arenas-spans size r.0 h.arenas r.1 hit) g)
      ])

-- What `kmalloc` has done: a block is handed out that shares no byte with any other that is.
pub record HandsOut (hhdm bytes p : ℕ) (h h' : Heap) : Type 0 where
  pub serves : Serves bytes p h h'
  pub granted : IsGranted hhdm h'
  pub clear : ClearOf serves.block (all_used h.arenas)

-- Where `kmalloc` is asked for at least one byte, and for at most 2^64 - 8208, it either answers 0
-- and changes nothing, or hands out a 16-byte aligned payload of a block that is large enough. That
-- block shares no byte, of header or payload, with any that was handed out before; those all stay as
-- they are. Every arena stays tiled by its blocks with no two free ones side by side, the arenas stay
-- apart from one another and in whole pages that the page-frame allocator has in use, and that stays
-- valid. (The direct map starts at a multiple of 16 and ends within 64 bits.)
pub kmalloc-HandsOut :
    (hhdm bytes : ℕ) {h : Heap}
    → IsHeap h
    → IsGranted hhdm h
    → hhdm % 16 ≡ 0
    → hhdm + max_pages * page_size ≤ u64_mod
    → bytes ≢ 0
    → bytes + 8208 ≤ u64_mod
    → let (p, h') = kmalloc hhdm bytes h in ((p ≡ 0) × (h' ≡ h)) ⊎ HandsOut hhdm bytes p h h'
kmalloc-HandsOut hhdm bytes {h} v g base map_fits pos small =
    elim (kmalloc-Serves hhdm bytes v base pos small) [
      | inl failed ↦ inl failed
      | inr s ↦
          let g' = kmalloc-IsGranted hhdm bytes v g map_fits pos small in
          let h' = (kmalloc hhdm bytes h).1 in
          inr (record {
            serves = s;
            granted = g';
            clear = Inserted-ClearOf s.fresh (all_used-AllClear h'.arenas s.valid.arenas g'.apart);
          })
    ]
