-- ===== src/Pmm/Free.antt =====
-- `pmm_free_pages` of mm/pmm.c, and the round trip with `pmm_alloc_pages`.
use Prim.Native.Nat.{min}
use artyom_x.Base.{
  ℕ, zero, suc, ◌+◌, ◌/◌, ◌≤◌, ◌≡◌, ◌≢◌, ◌&&◌, false, refl, sym, ◌∙◌, arith, ltb, leb,
  if◌then◌else◌, Bool-cases, inl, inr,
}
use artyom_x.Pmm.{
  Pmm, bitmap_test, mark_page, free_loop, pmm_alloc_pages, pmm_free_pages, page_size, max_pages,
}
use artyom_x.Pmm.Count.{IsCounted, free_below-same}
use artyom_x.Pmm.Region.{Marks, mark_page-Marks, empty-Marks, Marks-empty, Marks-trans}
use artyom_x.Pmm.Init.{IsValid}
use artyom_x.Pmm.Alloc.{Grants, pmm_alloc_pages-Grants}

free_loop-Marks :
    (n p e : ℕ) (s : Pmm)
    → IsCounted s
    → s.highest_page ≤ max_pages
    → min (p + n) s.highest_page ≡ e
    → Marks 0 p e s (free_loop n p s)
unfolding free_loop
free_loop-Marks zero p e s v h q = Marks-empty 0 p e (omega arith) (empty-Marks 0 p v)
free_loop-Marks (suc n) p e s v h q = elim (Bool-cases (leb s.highest_page p)) [
  | inl out ↦ rw out (Marks-empty 0 p e (ground arith) (empty-Marks 0 p v))
  | inr inside ↦
      let m = mark_page-Marks false p v (ground arith) in
      rw inside (
        Marks-trans 0 p (p + 1) e (omega arith) (ground arith) m (
          free_loop-Marks n (p + 1) e (mark_page false p s) m.valid (omega (arith, m.same_top))
            (omega (arith, m.same_top))))
]

-- The pages of `start` and of the `count - 1` after it that are tracked are free in `t`, and every
-- other bit is as in `s`.
pub record Frees (start count : ℕ) (s t : Pmm) : Type 0 where
  pub valid : IsValid t
  pub bits :
      (q : ℕ)
      → bitmap_test t.bitmap q ≡ (
          if leb start q && ltb q (start + count) && ltb q s.highest_page
          then 0
          else bitmap_test s.bitmap q)
  pub same_top : t.highest_page ≡ s.highest_page
  pub hint_low : t.last_hint ≡ min start s.last_hint

-- `pmm_free_pages` frees exactly the tracked pages of the range, whatever their state was, lowers
-- the hint to the range, and keeps the invariant. (The range does not start in page 0.)
pub pmm_free_pages-Frees :
    {s : Pmm} (addr count : ℕ)
    → IsValid s
    → page_size ≤ addr
    → Frees (addr / page_size) count s (pmm_free_pages addr count s)
unfolding pmm_free_pages
pmm_free_pages-Frees {s} addr count v h =
    let start = addr / page_size in
    let m =
      free_loop-Marks count start (min (start + count) s.highest_page) s v.counted v.top_in refl in
    elim (Bool-cases (ltb start (free_loop count start s).last_hint)) [
      | inl low ↦ rw low (record {
        valid = record {
          counted = record { bytes = m.valid.bytes; counted = m.valid.counted };
          top_in = omega (arith, m.same_top, v.top_in);
          page_zero = ground (arith, m.bits 0, v.page_zero);
          hint_in = ground (arith, m.same_top, m.same_hint, v.hint_in);
        };
        bits = λ q. ground (arith, m.bits q);
        same_top = m.same_top;
        hint_low = ground (arith, m.same_hint);
      })
      | inr high ↦ rw high (record {
        valid = record {
          counted = m.valid;
          top_in = omega (arith, m.same_top, v.top_in);
          page_zero = ground (arith, m.bits 0, v.page_zero);
          hint_in = ground (arith, m.same_top, m.same_hint, v.hint_in);
        };
        bits = λ q. ground (arith, m.bits q);
        same_top = m.same_top;
        hint_low = ground (arith, m.same_hint);
      })
    ]

free_bits :
    {s t u : Pmm} (count start r : ℕ)
    → start ≡ r
    → Grants count r s t
    → Frees start count t u
    → (q : ℕ) → bitmap_test u.bitmap q ≡ bitmap_test s.bitmap q
free_bits {s} count start r e g f q = elim (Bool-cases (leb r q && ltb q (r + count))) [
  | inl inside ↦
      ground (arith, f.bits q, g.was_free q (ground arith) (ground arith), g.within, g.same_top)
  | inr outside ↦ ground (arith, f.bits q, g.bits q)
]

free_counts :
    {s u : Pmm}
    → IsCounted s
    → IsCounted u
    → ((q : ℕ) → bitmap_test u.bitmap q ≡ bitmap_test s.bitmap q)
    → u.free_count ≡ s.free_count
free_counts {s} {u} v w same =
    w.counted ∙ free_below-same u.bitmap s.bitmap max_pages (λ q l. same q) ∙ sym v.counted

-- Freeing what `pmm_alloc_pages` handed out restores every bit of the bitmap, and the counter.
pub pmm_free_pages-alloc :
    {s : Pmm} (count q : ℕ)
    → IsValid s
    → count ≢ 0
    → (pmm_alloc_pages count s).0 ≢ 0
    → let (a, t) = pmm_alloc_pages count s in
      let u = pmm_free_pages a count t in
      (bitmap_test u.bitmap q ≡ bitmap_test s.bitmap q) × (u.free_count ≡ s.free_count)
pmm_free_pages-alloc {s} count q v pos success = elim (pmm_alloc_pages-Grants count v pos) [
  | inl (failed, same) ↦ absurd (success failed)
  | inr (r, address, g) ↦
      let f =
        pmm_free_pages-Frees (pmm_alloc_pages count s).0 count g.valid
          (omega (arith, address, g.positive)) in
      let bits = free_bits count _ r (omega (arith, address)) g f in
      (bits q, free_counts v.counted f.valid.counted bits)
]
