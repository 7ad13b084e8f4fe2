-- ===== src/Gfx/Draws/Shapes.antt =====
-- The shapes of lib/gfxlib.c stay inside the back buffer.
use artyom_x.Base.{ℕ, not, ◌&&◌}
use artyom_x.Gfx.{Gfx, for_each}
use artyom_x.Gfx.Shapes.{
  in_rounded, is_inner, fit_radius, gfx_rounded_rect, gfx_rounded_rect_alpha, gfx_hline, gfx_vline,
  gfx_rect_outline, gfx_rounded_outline, gfx_vgradient, gfx_circle,
}
use artyom_x.Gfx.Stays.{
  Stays, Stays-refl, Stays-trans, for_each-Stays, choose-Stays, gfx_pixel-Stays, blend_pixel-Stays,
}

-- Two nested loops over pixels.
pub nested-Stays :
    (n m : ℕ) (body : ℕ → ℕ → Gfx → Gfx) (g : Gfx)
    → ((j i : ℕ) (t : Gfx) → Stays t (body j i t))
    → Stays g (for_each n 0 (λ j. for_each m 0 (body j)) g)
nested-Stays n m body g h = for_each-Stays n 0 _ g (λ j t. for_each-Stays m 0 (body j) t (h j))

pub rounded_rect-Stays : (x y w h r c : ℕ) (g : Gfx) → Stays g (gfx_rounded_rect x y w h r c g)
unfolding gfx_rounded_rect
rounded_rect-Stays x y w h r c g = nested-Stays _ _ _ g (λ j i t.
    choose-Stays (in_rounded i j w h (fit_radius w h r)) (gfx_pixel-Stays _ _ c t) (Stays-refl t))

pub rounded_rect_alpha-Stays :
    (x y w h r c : ℕ) (g : Gfx) → Stays g (gfx_rounded_rect_alpha x y w h r c g)
unfolding gfx_rounded_rect_alpha
rounded_rect_alpha-Stays x y w h r c g = nested-Stays _ _ _ g (λ j i t.
    choose-Stays (in_rounded i j w h (fit_radius w h r)) (blend_pixel-Stays _ _ c t) (Stays-refl t))

pub hline-Stays : (x y w c : ℕ) (g : Gfx) → Stays g (gfx_hline x y w c g)
unfolding gfx_hline
hline-Stays x y w c g = for_each-Stays _ 0 _ g (λ i t. gfx_pixel-Stays _ _ c t)

pub vline-Stays : (x y h c : ℕ) (g : Gfx) → Stays g (gfx_vline x y h c g)
unfolding gfx_vline
vline-Stays x y h c g = for_each-Stays _ 0 _ g (λ j t. gfx_pixel-Stays _ _ c t)

pub rect_outline-Stays : (x y w h c : ℕ) (g : Gfx) → Stays g (gfx_rect_outline x y w h c g)
unfolding gfx_rect_outline
rect_outline-Stays x y w h c g = Stays-trans (hline-Stays x y w c g) (
    Stays-trans (hline-Stays x _ w c _)
      (Stays-trans (vline-Stays x y h c _) (vline-Stays _ y h c _)))

pub rounded_outline-Stays :
    (x y w h r c : ℕ) (g : Gfx) → Stays g (gfx_rounded_outline x y w h r c g)
unfolding gfx_rounded_outline
rounded_outline-Stays x y w h r c g = nested-Stays _ _ _ g (λ j i t.
    choose-Stays
      (in_rounded i j w h (fit_radius w h r) && not (is_inner i j w h (fit_radius w h r)))
      (gfx_pixel-Stays _ _ c t) (Stays-refl t))

pub vgradient-Stays : (x y w h a b : ℕ) (g : Gfx) → Stays g (gfx_vgradient x y w h a b g)
unfolding gfx_vgradient
vgradient-Stays x y w h a b g = for_each-Stays _ 0 _ g (λ j t. hline-Stays x _ w _ t)

pub circle-Stays : (x y r c : ℕ) (g : Gfx) → Stays g (gfx_circle x y r c g)
unfolding gfx_circle
circle-Stays x y r c g =
    nested-Stays _ _ _ g (λ j i t. choose-Stays _ (gfx_pixel-Stays _ _ c t) (Stays-refl t))
