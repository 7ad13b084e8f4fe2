-- ===== src/Gfx/Region.antt =====
-- The loops of lib/gfxlib.c over a region of the buffer, given by the column and the row of an index.
use artyom_x.Base.{
  ℕ, zero, suc, ◌+◌, ◌*◌, ◌/◌, ◌%◌, ◌≤◌, ◌<◌, ◌≡◌, ◌∙◌, inl, inr, refl, true, false, ◌==◌,
  if◌then◌else◌, arith, ◌&&◌, Bool-cases, ℕ_discrete, dec_lt,
}
use artyom_x.Libc.{Memory, store}
use artyom_x.Libc.Copy.{within}
use artyom_x.Gfx.{update_row, update_rows}
use native.Mathlib.Nat.{mod-lt, mul-le-mul_right, div-add-mod'}

-- Each of the `n` pixels from `base` on is updated once.
pub update_row-at :
    (f : ℕ → ℕ) (n base : ℕ) (mem : Memory) (k : ℕ)
    → update_row f n base mem k ≡ (if within base n k then f (mem k) else mem k)
unfolding update_row
update_row-at f zero base mem k = let w : within base 0 k ≡ false = ground arith in rw w refl
update_row-at f (suc n) base mem k =
    let new = store mem base (f (mem base)) in
    let rest = update_row-at f n (base + 1) new k in
    elim (ℕ_discrete k base) [
      | yes e ↦
          let after : within (base + 1) n k ≡ false = ground arith in
          let now : within base (suc n) k ≡ true = ground arith in
          let hit : (k == base) ≡ true = ground arith in rw now (rest ∙ rw (after, hit, e) refl)
      | no ne ↦
          let miss : (k == base) ≡ false = ground arith in
          let same : within (base + 1) n k ≡ within base (suc n) k =
            elim (Bool-cases (within base (suc n) k)) [
              | inl w ↦ rw w (ground (arith, ne))
              | inr w ↦ rw w (ground (arith, ne))
            ] in
          rest ∙ rw (same, miss) refl
    ]

module _ (size : ℕ) (some_width : 0 < size) where
  row_before : (q y : ℕ) → q < y → q * size + size ≤ y * size
  row_before q y h = omega (arith, mul-le-mul_right size h)

  -- An index in the columns `x` to `x + w` of row `y`.
  row_columns :
      (y x w k : ℕ)
      → x + w ≤ size
      → within (y * size + x) w k ≡ (k / size == y) && within x w (k % size)
  row_columns y x w k h =
      let e = div-add-mod' k size in
      let r = mod-lt k some_width in
      elim (ℕ_discrete (k / size) y) [
        | yes same ↦
            let hit : (k / size == y) ≡ true = ground arith in
            let at : y * size + k % size ≡ k = rw same at e in rw hit (ground (arith, at, r))
        | no differ ↦
            let miss : (k / size == y) ≡ false = ground arith in
            rw miss (elim (dec_lt (k / size) y) [
              | yes above ↦ let room = row_before (k / size) y above in ground (arith, e, r, room)
              | no below ↦
                  let room = row_before y (k / size) (omega (arith, differ)) in
                  ground (arith, e, r, room, h)
            ])
      ]

  -- The pixels of a region are updated once each, and no others.
  pub update_rows-at :
      (f : ℕ → ℕ) (x w n y : ℕ) (mem : Memory) (k : ℕ)
      → x + w ≤ size
      → update_rows f size x w n y mem k
        ≡ (if within y n (k / size) && within x w (k % size) then f (mem k) else mem k)
  unfolding update_rows
  update_rows-at f x w zero y mem k h =
      let none : within y 0 (k / size) ≡ false = ground arith in rw none refl
  update_rows-at f x w (suc n) y mem k h =
      let new = update_row f w (y * size + x) mem in
      let rest = update_rows-at f x w n (y + 1) new k h in
      let now : new k ≡ (if (k / size == y) && within x w (k % size) then f (mem k) else mem k) =
        rw (← row_columns y x w k h) (update_row-at f w (y * size + x) mem k) in
      elim (ℕ_discrete (k / size) y) [
        | yes e ↦
            let after : within (y + 1) n (k / size) ≡ false = ground arith in
            let here : within y (suc n) (k / size) ≡ true = ground arith in
            let hit : (k / size == y) ≡ true = ground arith in
            rw here (rest ∙ rw after (rw hit at now))
        | no ne ↦
            let miss : (k / size == y) ≡ false = ground arith in
            let same : within (y + 1) n (k / size) ≡ within y (suc n) (k / size) =
              elim (Bool-cases (within y (suc n) (k / size))) [
                | inl w' ↦ rw w' (ground (arith, ne))
                | inr w' ↦ rw w' (ground (arith, ne))
              ] in
            rest ∙ rw (same, rw miss at now) refl
      ]
