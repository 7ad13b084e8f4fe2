-- ===== src/Pmm/Alloc.antt =====
-- `pmm_alloc_pages` of mm/pmm.c: what it hands out, what it leaves alone, and when it fails.
use artyom_x.Base.{
  ℕ, zero, suc, ◌+◌, ◌*◌, ◌≤◌, ◌<◌, ◌≡◌, ◌≢◌, ◌⊎◌, ◌&&◌, false, refl, arith, ltb, leb, dec_lt, ◌==◌,
  if◌then◌else◌, Bool-cases, Option-cases, inl, inr,
}
use artyom_x.Pmm.{
  Pmm, bitmap_test, take_page, claim, grant, find_run, pmm_alloc_pages, pmm_alloc_page, page_size,
  max_pages,
}
use artyom_x.Pmm.Count.{IsCounted, take_page_count}
use artyom_x.Pmm.Region.{Marks, take_page-Marks, empty-Marks, Marks-trans}
use artyom_x.Pmm.Init.{IsValid}
use artyom_x.Pmm.Search.{IsFreeRun, find_run_sound, find_run_finds}

claim-Marks :
    (n p e : ℕ) (s : Pmm)
    → IsCounted s
    → p + n ≡ e
    → e ≤ max_pages
    → IsFreeRun s.bitmap p n
    → Marks 1 p e s (claim n p s) × ((claim n p s).free_count + n ≡ s.free_count)
unfolding claim
claim-Marks zero p e s v q h f =
    let q' : p ≡ e = omega arith in (rw (← q') (empty-Marks 1 p v), omega arith)
claim-Marks (suc n) p e s v q h f =
    let z = f p (omega arith) (omega arith) in
    let m = take_page-Marks p v (omega arith) z in
    let rest =
      claim-Marks n (p + 1) e (take_page p s) m.valid (omega arith) h
        (λ r a b. ground (arith, m.bits r, f r (omega arith) (omega arith))) in
    (
      Marks-trans 1 p (p + 1) e (omega arith) (omega arith) m rest.0,
      omega (arith, rest.1, take_page_count p v (omega arith) z),
    )

-- `count` pages from `start` on went from free to used between `s` and `t`, and nothing else did.
pub record Grants (count start : ℕ) (s t : Pmm) : Type 0 where
  pub valid : IsValid t
  pub positive : 0 < start
  pub within : start + count ≤ s.highest_page
  pub was_free : IsFreeRun s.bitmap start count
  pub side : (s.last_hint ≤ start) ⊎ (start + count ≤ s.last_hint)
  pub bits :
      (q : ℕ)
      → bitmap_test t.bitmap q
        ≡ (if leb start q && ltb q (start + count) then 1 else bitmap_test s.bitmap q)
  pub fewer : t.free_count + count ≡ s.free_count
  pub same_top : t.highest_page ≡ s.highest_page
  pub hint_behind : t.last_hint ≡ start + count

module _ {s : Pmm} (count : ℕ) (v : IsValid s) (pos : count ≢ 0) where
  grant-Grants :
      (r : ℕ)
      → r + count ≤ s.highest_page
      → IsFreeRun s.bitmap r count
      → (s.last_hint ≤ r) ⊎ (r + count ≤ s.last_hint)
      → Grants count r s (grant count r s).1
  unfolding grant
  grant-Grants r within f side =
      let m = claim-Marks count r (r + count) s v.counted refl (omega (arith, v.top_in)) f in
      record {
        valid = record {
          counted = record { bytes = m.0.valid.bytes; counted = m.0.valid.counted };
          top_in = omega (arith, m.0.same_top, v.top_in);
          page_zero = ground (arith, m.0.bits 0, v.page_zero);
          hint_in = omega (arith, m.0.same_top);
        };
        positive = elim (dec_lt 0 r) [
          | yes h ↦ h
          | no h ↦ absurd (ground (arith, f 0 (omega arith) (omega arith), v.page_zero))
        ];
        within = within;
        was_free = f;
        side = side;
        bits = m.0.bits;
        fewer = m.1;
        same_top = m.0.same_top;
        hint_behind = refl;
      }

  -- `pmm_alloc_pages` of a positive count either answers 0 and changes nothing, or answers the
  -- address of a run of `count` free tracked pages, none of them page 0, and takes exactly those:
  -- every other bit stays, the counter drops by `count`, the hint moves behind the run, and the
  -- invariant holds again.
  pub pmm_alloc_pages-Grants :
      let (a, t) = pmm_alloc_pages count s in
      ((a ≡ 0) × (t ≡ s)) ⊎ ((r : ℕ) × (a ≡ r * page_size) × Grants count r s t)
  unfolding pmm_alloc_pages grant
  pmm_alloc_pages-Grants = elim (Bool-cases (s.highest_page == 0)) [
    | inl z ↦ rw (z, none_asked) (inl (refl, refl))
    | inr nz ↦ elim (Option-cases (find_run count s)) [
      | inl miss ↦ rw (nz, none_asked, miss) (inl (refl, refl))
      | inr (r, hit) ↦
          let sound = find_run_sound count v pos hit in
          rw (nz, none_asked, hit) (inr (r, refl, grant-Grants r sound.0 sound.1 sound.2))
    ]
  ]
    where
      none_asked : (count == 0) ≡ false
      none_asked = ground arith

  -- A free run of `count` tracked pages that lies on one side of the hint is enough for
  -- `pmm_alloc_pages` to succeed.
  pub pmm_alloc_pages_finds :
      (r : ℕ)
      → IsFreeRun s.bitmap r count
      → r + count ≤ s.highest_page
      → (s.last_hint ≤ r) ⊎ (r + count ≤ s.last_hint)
      → (pmm_alloc_pages count s).0 ≢ 0
  unfolding pmm_alloc_pages grant
  pmm_alloc_pages_finds r f within side =
      let hit = find_run_finds count v pos r f within side in
      let sound = find_run_sound count v pos hit.1 in
      let g = grant-Grants hit.0 sound.0 sound.1 sound.2 in ground (arith, hit.1, g.positive)

  -- Where every free run of `count` tracked pages has the hint inside it, `pmm_alloc_pages` answers
  -- 0 and changes nothing, however many pages are free.
  pub pmm_alloc_pages_misses :
      ((r : ℕ)
        → IsFreeRun s.bitmap r count
        → r + count ≤ s.highest_page
        → (r < s.last_hint) × (s.last_hint < r + count))
      → pmm_alloc_pages count s ≡ (0, s)
  pmm_alloc_pages_misses all = elim pmm_alloc_pages-Grants [
    | inl (zeroed, same) ↦ ground (arith, zeroed, same)
    | inr (r, address, g) ↦ absurd (granted r g)
  ]
    where
      granted : (r : ℕ) → Grants count r s (pmm_alloc_pages count s).1 → ⊥
      granted r g =
          let straddles = all r g.was_free g.within in
          elim g.side [
            | inl above ↦ omega (arith, straddles.0)
            | inr below ↦ omega (arith, straddles.1)
          ]

-- `pmm_alloc_page` succeeds whenever a tracked page is free, wherever the hint lies.
pub pmm_alloc_page_finds :
    {s : Pmm} (q : ℕ)
    → IsValid s
    → q < s.highest_page
    → bitmap_test s.bitmap q ≡ 0
    → (pmm_alloc_page s).0 ≢ 0
unfolding pmm_alloc_page
pmm_alloc_page_finds {s} q v l z =
    pmm_alloc_pages_finds 1 v (omega arith) q alone (omega arith) (omega arith)
  where
    alone : IsFreeRun s.bitmap q 1
    alone p a b = let e : p ≡ q = omega arith in rw e z
