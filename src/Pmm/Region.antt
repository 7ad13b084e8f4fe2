-- ===== src/Pmm/Region.antt =====
-- `mark_region` of mm/pmm.c sets the bits of a range of pages, and keeps the count.
use artyom_x.Base.{
  ℕ, zero, suc, ◌+◌, ◌-◌, ◌/◌, ◌≤◌, ◌<◌, ◌≡◌, ◌≢◌, refl, Bool, true, false, ◌&&◌, arith, ltb, leb,
  ◌==◌, if◌then◌else◌, Bool-cases, inl, inr,
}
use artyom_x.Pmm.{
  Pmm, bitmap_test, max_pages, page_size, take_page, give_page, mark_page, mark_loop, end_page,
  mark_region,
}
use artyom_x.Pmm.Bitmap.{bitmap_test-set, bitmap_test-clear, bitmap_test_bit}
use artyom_x.Pmm.Count.{IsCounted, take_page-IsCounted, give_page-IsCounted}

abbrev pub bit : Bool → ℕ
bit true = 1
bit false = 0

-- `t` is `s` with the pages from `lo` up to `hi` set to `v`, and its counter still right.
pub record Marks (v lo hi : ℕ) (s t : Pmm) : Type 0 where
  pub valid : IsCounted t
  pub bits :
      (q : ℕ)
      → bitmap_test t.bitmap q ≡ (if leb lo q && ltb q hi then v else bitmap_test s.bitmap q)
  pub same_top : t.highest_page ≡ s.highest_page
  pub same_hint : t.last_hint ≡ s.last_hint

pub take_page-Marks :
    {s : Pmm} (p : ℕ)
    → IsCounted s
    → p < max_pages
    → bitmap_test s.bitmap p ≡ 0
    → Marks 1 p (p + 1) s (take_page p s)
unfolding take_page
take_page-Marks {s} p v h z = record {
  valid = take_page-IsCounted p v h z;
  bits = λ q. ground (arith, bitmap_test-set s.bitmap p v.bytes q);
  same_top = refl;
  same_hint = refl;
}

pub give_page-Marks :
    {s : Pmm} (p : ℕ)
    → IsCounted s
    → p < max_pages
    → bitmap_test s.bitmap p ≡ 1
    → Marks 0 p (p + 1) s (give_page p s)
unfolding give_page
give_page-Marks {s} p v h z = record {
  valid = give_page-IsCounted p v h z;
  bits = λ q. ground (arith, bitmap_test-clear s.bitmap p v.bytes q);
  same_top = refl;
  same_hint = refl;
}

-- A page that has the value already.
pub same-Marks :
    {s : Pmm} (v p : ℕ) → IsCounted s → bitmap_test s.bitmap p ≡ v → Marks v p (p + 1) s s
same-Marks {s} v p c z = record {
  valid = c;
  bits = λ q. elim (Bool-cases (q == p)) [
    | inl e ↦ let e' : q ≡ p = ground arith in rw e' (ground arith)
    | inr e ↦ ground arith
  ];
  same_top = refl;
  same_hint = refl;
}

pub empty-Marks : {s : Pmm} (v p : ℕ) → IsCounted s → Marks v p p s s
empty-Marks v p c = record {
  valid = c;
  bits = λ q. ground arith;
  same_top = refl;
  same_hint = refl;
}

pub mark_page-Marks :
    {s : Pmm} (used : Bool) (p : ℕ)
    → IsCounted s
    → p < max_pages
    → Marks (bit used) p (p + 1) s (mark_page used p s)
unfolding mark_page
mark_page-Marks {s} true p v h = elim (Bool-cases (bitmap_test s.bitmap p == 0)) [
  | inl e ↦ rw e (take_page-Marks p v h (ground arith))
  | inr e ↦ rw e (same-Marks 1 p v (ground (arith, bitmap_test_bit s.bitmap p)))
]
mark_page-Marks {s} false p v h = elim (Bool-cases (bitmap_test s.bitmap p == 0)) [
  | inl e ↦ rw e (same-Marks 0 p v (ground arith))
  | inr e ↦ rw e (give_page-Marks p v h (ground (arith, bitmap_test_bit s.bitmap p)))
]

-- Adjacent ranges join.
pub Marks-trans :
    {s t u : Pmm} (v lo mid hi : ℕ)
    → lo ≤ mid
    → mid ≤ hi
    → Marks v lo mid s t
    → Marks v mid hi t u
    → Marks v lo hi s u
Marks-trans v lo mid hi a b m n = record {
  valid = n.valid;
  bits = λ q. ground (arith, m.bits q, n.bits q);
  same_top = ground (arith, m.same_top, n.same_top);
  same_hint = ground (arith, m.same_hint, n.same_hint);
}

pub mark_loop-Marks :
    (used : Bool) (n p e : ℕ) (s : Pmm)
    → IsCounted s
    → p + n ≡ e
    → e ≤ max_pages
    → Marks (bit used) p e s (mark_loop used n p s)
unfolding mark_loop
mark_loop-Marks used zero p e s v q h =
    let q' : p ≡ e = omega arith in rw (← q') (empty-Marks (bit used) p v)
mark_loop-Marks used (suc n) p e s v q h =
    let m = mark_page-Marks used p v (omega arith) in
    Marks-trans (bit used) p (p + 1) e (omega arith) (omega arith) m
      (mark_loop-Marks used n (p + 1) e (mark_page used p s) m.valid (omega arith) h)

pub end_page-le : (base len : ℕ) → end_page base len ≤ max_pages
unfolding end_page
end_page-le base len = ground arith

-- A range that is empty because it ends before it starts.
pub Marks-empty : {s t : Pmm} (v lo hi : ℕ) → hi ≤ lo → Marks v lo lo s t → Marks v lo hi s t
Marks-empty v lo hi h m = record {
  valid = m.valid;
  bits = λ q. ground (arith, m.bits q);
  same_top = m.same_top;
  same_hint = m.same_hint;
}

-- The loop from `p` up to `e`, which may lie below it.
mark_loop_span :
    {s : Pmm} (used : Bool) (p e : ℕ)
    → IsCounted s
    → e ≤ max_pages
    → Marks (bit used) p e s (mark_loop used (e - p) p s)
unfolding mark_loop
mark_loop_span {s} used p e v h = elim (Bool-cases (leb p e)) [
  | inl le ↦ mark_loop-Marks used (e - p) p e s v (ground arith) h
  | inr gt ↦
      let nothing : e - p ≡ 0 = ground arith in
      rw nothing (Marks-empty (bit used) p e (ground arith) (empty-Marks (bit used) p v))
]

-- Exactly the pages that a region touches are set to `used`, up to the end of the bitmap; the
-- counter stays the number of free pages.
pub mark_region-Marks :
    {s : Pmm} (base len : ℕ) (used : Bool)
    → IsCounted s
    → len ≢ 0
    → Marks (bit used) (base / page_size) (end_page base len) s (mark_region base len used s)
unfolding mark_region
mark_region-Marks {s} base len used v h =
    let z : (len == 0) ≡ false = ground arith in
    rw z (mark_loop_span used (base / page_size) (end_page base len) v (end_page-le base len))
