-- ===== src/Pmm/MemoryMap.antt =====
-- The walk through the boot memory map in mm/pmm.c: which entries it reads, and what they free.
use artyom_x.Base.{
  ℕ, zero, suc, ◌+◌, ◌*◌, ◌/◌, ◌%◌, ◌^◌, ◌≤◌, ◌<◌, ◌≡◌, refl, ap, ◌∙◌, Bool, false, ◌&&◌, ◌||◌,
  List, [], ◌∷◌, arith, ltb, leb, ◌==◌, if◌then◌else◌, Bool-cases, inl, inr,
}
use artyom_x.Pmm.{
  Pmm, Mbi, MmapEntry, bitmap_test, max_pages, page_size, u64_mod, mark_region, end_page,
  read_entry, add_entry, init_loop,
}
use artyom_x.Pmm.Count.{IsCounted}
use artyom_x.Pmm.Region.{mark_region-Marks}

-- The entries that the loop reads, in order.
unfoldable pub entries_from : (ℕ → ℕ) → ℕ → ℕ → ℕ → List MmapEntry
entries_from mem len zero off = []
entries_from mem len (suc guard) off =
    let e = read_entry mem off in
    let rest = entries_from mem len guard ((off + (e.size + 4) % 2 ^ 32) % 2 ^ 32) in
    if ltb len (off + 24) then [] else if e.size == 0 then [] else e ∷ rest

unfoldable pub mmap_entries : Mbi → List MmapEntry
mmap_entries m =
    if (m.flags / 64 % 2 == 0) || (m.mmap_addr == 0)
    then []
    else entries_from m.mmap m.mmap_length 4096 0

-- A usable entry that has a byte in page `q`.
abbrev pub touches : ℕ → MmapEntry → Bool
touches q e =
    (e.kind == 1)
    && ltb 0 e.len
    && ltb e.base ((q + 1) * page_size)
    && ltb (q * page_size) (e.base + e.len)

abbrev pub any_touches : ℕ → List MmapEntry → Bool
any_touches q [] = false
any_touches q (e ∷ es) = touches q e || any_touches q es

-- The entries end below the last page of the 64-bit address space.
abbrev pub AllFit : List MmapEntry → Type 0
AllFit [] = Unit
AllFit (e ∷ es) = (e.base + e.len + page_size ≤ u64_mod) × AllFit es

-- The first page behind the usable entries, at least `top`.
unfoldable pub top_page : List MmapEntry → ℕ → ℕ
top_page [] top = top
top_page (e ∷ es) top =
    let t = (e.base + e.len) / page_size in
    top_page es (if (e.kind == 1) && ltb top t then t else top)

pub add_entries : List MmapEntry → Pmm → Pmm
add_entries [] s = s
add_entries (e ∷ es) s = add_entries es (add_entry e s)

pub init_loop-add_entries :
    (mem : ℕ → ℕ) (len guard off : ℕ) (s : Pmm)
    → init_loop mem len guard off s ≡ add_entries (entries_from mem len guard off) s
unfolding init_loop entries_from add_entries
init_loop-add_entries mem len zero off s = refl
init_loop-add_entries mem len (suc guard) off s = elim (Bool-cases (ltb len (off + 24))) [
  | inl e ↦ rw e
  | inr e ↦ elim (Bool-cases ((read_entry mem off).size == 0)) [
    | inl z ↦ rw (e, z)
    | inr z ↦ rw (e, z) (init_loop-add_entries mem len guard _ _)
  ]
]

-- What one run of the loop over `es` has done to `s`.
pub record Added (es : List MmapEntry) (s t : Pmm) : Type 0 where
  pub valid : IsCounted t
  pub bits :
      (q : ℕ)
      → q < max_pages
      → bitmap_test t.bitmap q ≡ (if any_touches q es then 0 else bitmap_test s.bitmap q)
  pub tops : t.highest_page ≡ top_page es s.highest_page
  pub hints : t.last_hint ≡ s.last_hint

end_page-touches :
    (e : MmapEntry) (q : ℕ)
    → e.base + e.len + page_size ≤ u64_mod
    → q < max_pages
    → (leb (e.base / page_size) q && ltb q (end_page e.base e.len))
      ≡ (ltb e.base ((q + 1) * page_size) && ltb (q * page_size) (e.base + e.len))
unfolding end_page
end_page-touches e q fit h = ground arith

-- The region of a usable entry, the empty one included.
free_region :
    {s : Pmm} (e : MmapEntry)
    → IsCounted s
    → e.base + e.len + page_size ≤ u64_mod
    → let t = mark_region e.base e.len false s in
      IsCounted t
      × ((q : ℕ)
          → q < max_pages
          → bitmap_test t.bitmap q ≡ (
              if ltb 0 e.len
                && ltb e.base ((q + 1) * page_size)
                && ltb (q * page_size) (e.base + e.len)
              then 0
              else bitmap_test s.bitmap q))
      × (t.highest_page ≡ s.highest_page)
      × (t.last_hint ≡ s.last_hint)
unfolding mark_region
free_region {s} e v fit = elim (Bool-cases (e.len == 0)) [
  | inl z ↦ rw (z, mark_region) (v, (λ q h. ground arith), refl, refl)
  | inr nz ↦
      let m = mark_region-Marks e.base e.len false v (ground arith) in
      (
        m.valid,
        (λ q h. ground (arith, m.bits q, end_page-touches e q fit h)),
        m.same_top,
        m.same_hint,
      )
]

add_entry-Added :
    {s : Pmm} (e : MmapEntry)
    → IsCounted s
    → e.base + e.len + page_size ≤ u64_mod
    → Added (e ∷ []) s (add_entry e s)
unfolding add_entry top_page
add_entry-Added {s} e v fit = elim (Bool-cases (e.kind == 1)) [
  | inl u ↦
      let r = free_region e v fit in
      record {
        valid = rw u (ground (arith, r.0));
        bits = λ q h. rw u (ground (arith, r.1 q h));
        tops = rw u (ground (arith, r.2));
        hints = rw u (ground (arith, r.3));
      }
  | inr u ↦ record { valid = rw u v; bits = λ q h. rw u; tops = rw u; hints = rw u }
]

pub add_entries-Added :
    (es : List MmapEntry) (s : Pmm) → IsCounted s → AllFit es → Added es s (add_entries es s)
unfolding add_entries top_page
add_entries-Added [] s v fit = record { valid = v; bits = λ q h. refl; tops = refl; hints = refl }
add_entries-Added (e ∷ es) s v fit =
    let one = add_entry-Added e v fit.0 in
    let rest = add_entries-Added es (add_entry e s) one.valid fit.1 in
    record {
      valid = rest.valid;
      bits = λ q h. ground (arith, rest.bits q h, one.bits q h);
      tops = rest.tops ∙ ap (top_page es) one.tops;
      hints = ground (arith, rest.hints, one.hints);
    }
