-- ===== src/Gfx/Fill.antt =====
-- `gfx_fill_rect` and `gfx_fill_rect_alpha` of lib/gfxlib.c: which pixels they reach.
use artyom_x.Base.{
  and_false, ℕ, ◌+◌, ◌/◌, ◌%◌, ◌^◌, ◌≤◌, ◌<◌, ◌≡◌, ◌∙◌, inl, inr, refl, sym, ap, Bool, true, false,
  not, ltb, if◌then◌else◌, arith, ◌&&◌, Bool-cases,
}
use artyom_x.Libc.Copy.{within}
use artyom_x.Gfx.{Gfx, clip, is_empty, update_rect, gfx_fill_rect, gfx_fill_rect_alpha, gfx_blend}
use artyom_x.Gfx.Clip.{shifted, covers, Clips, clip-Clips, clip_off_left}
use artyom_x.Gfx.Region.{update_rows-at}
use native.Mathlib.Nat.{mod-lt}

-- A screen of a size that the buffer can have.
pub record IsScreen (g : Gfx) : Type 0 where
  pub some_width : 0 < g.fb_w
  pub width : g.fb_w ≤ 1920
  pub some_height : 0 < g.fb_h
  pub height : g.fb_h ≤ 1200

-- A range of ints that does not end left of the screen and does not overflow.
pub record IsRange (x w : ℕ) : Type 0 where
  pub is_word : x < 2 ^ 32
  pub is_size : w < 2 ^ 31
  pub reaches : 2 ^ 31 ≤ shifted x + w
  pub no_overflow : shifted x + w < 2 ^ 32

and_comm : (a b : Bool) → (a && b) ≡ (b && a)
and_comm true true = refl
and_comm true false = refl
and_comm false true = refl
and_comm false false = refl

module _ (f : ℕ → ℕ) {g : Gfx} (v : IsScreen g) where
  abbrev updated : Bool → ℕ → ℕ
  updated b k = if b then f (g.backbuffer k) else g.backbuffer k

  -- With the clipped ranges in hand.
  clipped :
      (x y w h : ℕ) (rx ry : ℕ × ℕ) (k : ℕ)
      → clip g.fb_w x w ≡ rx
      → clip g.fb_h y h ≡ ry
      → (is_empty rx.1 ≡ false → rx.0 + rx.1 ≤ g.fb_w)
      → (update_rect f x y w h g).backbuffer k
        ≡ updated
            ((not (is_empty rx.1) && within rx.0 rx.1 (k % g.fb_w))
              && (not (is_empty ry.1) && within ry.0 ry.1 (k / g.fb_w)))
            k
  unfolding update_rect
  clipped x y w h rx ry k ex ey fits =
      rw (ex, ey)
        (elim (Bool-cases (is_empty rx.1)) [
          | inl e ↦ rw e refl
          | inr some_x ↦ elim (Bool-cases (is_empty ry.1)) [
            | inl e ↦ rw (some_x, e, and_false (within rx.0 rx.1 (k % g.fb_w))) refl
            | inr some_y ↦
                rw (some_x, some_y)
                  (update_rows-at g.fb_w v.some_width f rx.0 rx.1 ry.1 ry.0 g.backbuffer k
                      (fits some_x)
                    ∙ ap (λ b. updated b k)
                        (and_comm (within ry.0 ry.1 (k / g.fb_w)) (within rx.0 rx.1 (k % g.fb_w))))
          ]
        ])

  -- The vertical range, row by row, also below the screen.
  rows :
      (y h j : ℕ) (r : ℕ × ℕ)
      → Clips g.fb_h y h r
      → (not (is_empty r.1) && within r.0 r.1 j) ≡ ltb j g.fb_h && covers y h j
  rows y h j r c = elim (Bool-cases (ltb j g.fb_h)) [
    | inl on ↦ rw on (sym (c.same j (ground arith)))
    | inr off ↦ rw off (elim (Bool-cases (is_empty r.1)) [
      | inl e ↦ rw e refl
      | inr some ↦ let room = c.fits some in rw some (ground (arith, room))
    ])
  ]

  module _ (y h : ℕ) (ry : IsRange y h) where
    vertical : Clips g.fb_h y h (clip g.fb_h y h)
    vertical =
        clip-Clips g.fb_h y h (omega (arith, v.height)) ry.is_word ry.is_size ry.reaches
          ry.no_overflow

    -- Exactly the pixels of the rectangle that are on the screen are updated.
    update_rect-covers :
        (x w : ℕ) (k : ℕ)
        → IsRange x w
        → (update_rect f x y w h g).backbuffer k
          ≡ updated
              (covers x w (k % g.fb_w) && (ltb (k / g.fb_w) g.fb_h && covers y h (k / g.fb_w)))
              k
    update_rect-covers x w k rx =
        let across =
          clip-Clips g.fb_w x w (omega (arith, v.width)) rx.is_word rx.is_size rx.reaches
            rx.no_overflow in
        clipped x y w h (clip g.fb_w x w) (clip g.fb_h y h) k refl refl across.fits
        ∙ rw
            (
              across.same (k % g.fb_w) (mod-lt k v.some_width),
              rows y h (k / g.fb_w) (clip g.fb_h y h) vertical,
            )
            refl

    -- A rectangle that ends left of the screen updates its rows from end to end.
    update_rect_off_left :
        (x w : ℕ) (k : ℕ)
        → x < 2 ^ 32
        → w < 2 ^ 31
        → shifted x + w < 2 ^ 31
        → (update_rect f x y w h g).backbuffer k
          ≡ updated (ltb (k / g.fb_w) g.fb_h && covers y h (k / g.fb_w)) k
    update_rect_off_left x w k a b c =
        let all = clip_off_left g.fb_w x w (omega (arith, v.width)) a b c in
        let wide : not (is_empty g.fb_w) && within 0 g.fb_w (k % g.fb_w) ≡ true =
          full (mod-lt k v.some_width) in
        clipped x y w h (0, g.fb_w) (clip g.fb_h y h) k all refl (λ e. omega arith)
        ∙ rw (wide, rows y h (k / g.fb_w) (clip g.fb_h y h) vertical) refl
      where
        full : k % g.fb_w < g.fb_w → (not (is_empty g.fb_w) && within 0 g.fb_w (k % g.fb_w)) ≡ true
        full m = ground (arith, m, v.width)

-- `gfx_fill_rect` gives the colour to exactly the pixels of the rectangle that are on the screen,
-- where its sizes are below 2^31 and it neither ends left of or above the screen nor reaches an end
-- beyond the ints; the back buffer is that of a screen.
pub gfx_fill_rect_fills :
    {g : Gfx} (x y w h color k : ℕ)
    → IsScreen g
    → IsRange x w
    → IsRange y h
    → (gfx_fill_rect x y w h color g).backbuffer k ≡ (
        if covers x w (k % g.fb_w) && (ltb (k / g.fb_w) g.fb_h && covers y h (k / g.fb_w))
        then color
        else g.backbuffer k)
unfolding gfx_fill_rect
gfx_fill_rect_fills x y w h color k v rx ry = update_rect-covers (λ p. color) v y h ry x w k rx

-- `gfx_fill_rect_alpha` blends exactly those pixels, once each.
pub gfx_fill_rect_alpha_blends :
    {g : Gfx} (x y w h argb k : ℕ)
    → IsScreen g
    → IsRange x w
    → IsRange y h
    → (gfx_fill_rect_alpha x y w h argb g).backbuffer k ≡ (
        if covers x w (k % g.fb_w) && (ltb (k / g.fb_w) g.fb_h && covers y h (k / g.fb_w))
        then gfx_blend (g.backbuffer k) argb
        else g.backbuffer k)
unfolding gfx_fill_rect_alpha
gfx_fill_rect_alpha_blends x y w h argb k v rx ry =
    update_rect-covers (λ p. gfx_blend p argb) v y h ry x w k rx

-- `gfx_fill_rect` of a rectangle that ends left of the screen fills its rows over the whole width.
pub gfx_fill_rect_off_left :
    {g : Gfx} (x y w h color k : ℕ)
    → IsScreen g
    → x < 2 ^ 32
    → w < 2 ^ 31
    → shifted x + w < 2 ^ 31
    → IsRange y h
    → (gfx_fill_rect x y w h color g).backbuffer k
      ≡ (if ltb (k / g.fb_w) g.fb_h && covers y h (k / g.fb_w) then color else g.backbuffer k)
unfolding gfx_fill_rect
gfx_fill_rect_off_left x y w h color k v a b c ry =
    update_rect_off_left (λ p. color) v y h ry x w k a b c
