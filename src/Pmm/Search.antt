-- ===== src/Pmm/Search.antt =====
-- The search of `pmm_alloc_pages` in mm/pmm.c: what a pass finds is a free run, and the first one;
-- what neither pass finds does not lie on one side of the hint.
use artyom_x.Base.{
  ℕ, zero, suc, ◌+◌, ◌-◌, ◌≤◌, ◌<◌, ◌≡◌, ◌≢◌, ◌⊎◌, refl, Option, some, arith, dec_lt, true, ◌==◌,
  if◌then◌else◌, Bool-cases, Option-cases, inl, inr,
}
use artyom_x.Pmm.{Bitmap, Pmm, bitmap_test, scan, find_run}
use artyom_x.Pmm.Init.{IsValid}

-- `count` pages from `r` on are free.
abbrev pub IsFreeRun : Bitmap → ℕ → ℕ → Type 0
IsFreeRun bm r count = (q : ℕ) → r ≤ q → q < r + count → bitmap_test bm q ≡ 0

-- Where the current run starts, or the next one.
abbrev begin : ℕ → ℕ → ℕ → ℕ
begin run p run_start = if run == 0 then p else run_start

module _ (bm : Bitmap) (count : ℕ) where
  scan_sound :
      (n p run run_start : ℕ) (r : ℕ)
      → begin run p run_start + run ≡ p
      → run < count
      → IsFreeRun bm (begin run p run_start) run
      → scan bm count n p run run_start ≡ some r
      → (begin run p run_start ≤ r) × (r + count ≤ p + n) × IsFreeRun bm r count
  unfolding scan
  scan_sound zero p run run_start r e l f = λ found. cc
  scan_sound (suc n) p run run_start r e l f = elim (Bool-cases (bitmap_test bm p == 0)) [
    | inl z ↦ elim (Bool-cases (run + 1 == count)) [
      | inl d ↦ rw (z, d) (λ found. done found d (bitmap_zero z))
      | inr m ↦
          rw (z, m)
            (λ found.
              let ih =
                scan_sound n (p + 1) (run + 1) (begin run p run_start) r (ground arith)
                  (ground arith) (extend z) found in
              (ground (arith, ih.0), omega (arith, ih.1), ih.2))
    ]
    | inr u ↦ rw u (λ found.
        let ih =
          scan_sound n (p + 1) 0 run_start r (omega arith) (omega arith)
            (λ q a b. absurd (omega arith)) found in
        (ground (arith, ih.0), omega (arith, ih.1), ih.2))
  ]
    where
      bitmap_zero : (bitmap_test bm p == 0) ≡ true → bitmap_test bm p ≡ 0
      bitmap_zero z = ground arith

      extend :
          (bitmap_test bm p == 0) ≡ true
          → IsFreeRun bm (begin (run + 1) (p + 1) (begin run p run_start)) (run + 1)
      extend z q a b = elim (Bool-cases (q == p)) [
        | inl here ↦ let here' : q ≡ p = ground arith in rw here' (bitmap_zero z)
        | inr there ↦ f q (ground arith) (ground arith)
      ]

      done :
          some (begin run p run_start) ≡ some r
          → (run + 1 == count) ≡ true
          → bitmap_test bm p ≡ 0
          → (begin run p run_start ≤ r) × (r + count ≤ p + suc n) × IsFreeRun bm r count
      done found d z =
          let at : begin run p run_start ≡ r = ground arith in
          (
            ground arith,
            ground arith,
            λ q a b. elim (Bool-cases (q == p)) [
              | inl here ↦ let here' : q ≡ p = ground arith in rw here' z
              | inr there ↦ f q (ground arith) (ground arith)
            ],
          )

  scan_finds :
      (n p run run_start : ℕ) (r : ℕ)
      → begin run p run_start + run ≡ p
      → run < count
      → begin run p run_start ≤ r
      → r + count ≤ p + n
      → IsFreeRun bm r count
      → (t : ℕ) × (scan bm count n p run run_start ≡ some t) × (t ≤ r)
  unfolding scan
  scan_finds zero p run run_start r e l b within f = absurd (omega arith)
  scan_finds (suc n) p run run_start r e l b within f = elim (Bool-cases (bitmap_test bm p == 0)) [
    | inl z ↦ elim (Bool-cases (run + 1 == count)) [
      | inl d ↦ (begin run p run_start, rw (z, d), b)
      | inr m ↦
          rw (z, m)
            (scan_finds n (p + 1) (run + 1) (begin run p run_start) r (ground arith) (ground arith)
              (ground arith) (omega arith) f)
    ]
    | inr u ↦ rw u (
        scan_finds n (p + 1) 0 run_start r (omega arith) (omega arith)
          (elim (dec_lt p r) [
            | yes h ↦ omega arith
            | no h ↦ absurd (ground (arith, f p (omega arith) (omega arith)))
          ])
          (omega arith) f)
  ]

module _ {s : Pmm} (count : ℕ) (v : IsValid s) (pos : count ≢ 0) where
  -- What the two passes find is a free run of pages that are tracked.
  pub find_run_sound :
      {r : ℕ}
      → find_run count s ≡ some r
      → (r + count ≤ s.highest_page)
        × IsFreeRun s.bitmap r count
        × ((s.last_hint ≤ r) ⊎ (r + count ≤ s.last_hint))
  unfolding find_run
  find_run_sound {r} found = elim (Option-cases first) [
    | inl miss ↦ elim (Bool-cases (s.last_hint == 0)) [
      | inl z ↦ absurd (ground arith)
      | inr nz ↦
          let got : scan s.bitmap count s.last_hint 0 0 0 ≡ some r = ground arith in
          let sound =
            scan_sound s.bitmap count s.last_hint 0 0 0 r refl (omega arith)
              (λ q a b. absurd (omega arith)) got in
          (omega (arith, sound.1, v.hint_in), sound.2, inr (omega (arith, sound.1)))
    ]
    | inr (t, hit) ↦
        let got : first ≡ some r = ground arith in
        let sound =
          scan_sound s.bitmap count _ s.last_hint 0 0 r (omega arith) (omega arith)
            (λ q a b. absurd (omega arith)) got in
        (omega (arith, sound.1, v.hint_in), sound.2, inl sound.0)
  ]
    where
      first : Option ℕ
      first = scan s.bitmap count (s.highest_page - s.last_hint) s.last_hint 0 0

  -- A free run that lies on one side of the hint makes the search succeed.
  pub find_run_finds :
      (r : ℕ)
      → IsFreeRun s.bitmap r count
      → r + count ≤ s.highest_page
      → (s.last_hint ≤ r) ⊎ (r + count ≤ s.last_hint)
      → (t : ℕ) × (find_run count s ≡ some t)
  unfolding find_run
  find_run_finds r f within side = elim (Option-cases first) [
    | inl miss ↦ elim side [
      | inl above ↦
          let hit =
            scan_finds s.bitmap count (s.highest_page - s.last_hint) s.last_hint 0 0 r (omega arith)
              (omega arith) above (omega (arith, v.hint_in)) f in
          absurd (ground (arith, hit.1))
      | inr below ↦
          let hit =
            scan_finds s.bitmap count s.last_hint 0 0 0 r refl (omega arith) (omega arith)
              (omega arith) f in
          (hit.0, ground (arith, hit.1))
    ]
    | inr (t, hit) ↦ (t, rw (hit, find_run))
  ]
    where
      first : Option ℕ
      first = scan s.bitmap count (s.highest_page - s.last_hint) s.last_hint 0 0
