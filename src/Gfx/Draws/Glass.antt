-- ===== src/Gfx/Draws/Glass.antt =====
-- The glass effects of lib/gfxlib.c stay inside the back buffer.
use artyom_x.Base.{ℕ, ◌+◌, ◌^◌, ◌≤◌, ◌<◌, refl, arith, ◌||◌, Bool-cases, inl, inr}
use artyom_x.Gfx.{Gfx, word, for_each, clip, is_empty}
use artyom_x.Gfx.Fill.{IsScreen}
use artyom_x.Gfx.Glass.{
  blur_pixel, copy_pixel, blur_pass, gfx_blur_region, gfx_glass_region, gfx_glass_highlight,
  gfx_glass_specular, gfx_glass_shadow, dark_edge, gfx_liquid_glass,
}
use artyom_x.Gfx.Stays.{
  Stays, Stays-refl, Stays-trans, for_each-Stays_within, choose-Stays, stored-Stays, or_left,
  or_right, blend_pixel-Stays, clip_fits,
}
use artyom_x.Gfx.Draws.Shapes.{nested-Stays, rounded_rect_alpha-Stays, rounded_outline-Stays}

blur_pixel-Stays : (x y w h j i : ℕ) (g : Gfx) → Stays g (blur_pixel x y w h j i g)
unfolding blur_pixel
blur_pixel-Stays x y w h j i g = record { same_w = refl; same_h = refl; beyond = λ k l. refl }

copy_pixel-Stays :
    (x y j i : ℕ) (g : Gfx) → x + i < g.fb_w → y + j < g.fb_h → Stays g (copy_pixel x y j i g)
unfolding copy_pixel
copy_pixel-Stays x y j i g a b = stored-Stays g (x + i) (y + j) _ a b

blur_pass-Stays :
    {s : Gfx} (x y w h : ℕ) (g : Gfx)
    → Stays s g
    → x + w ≤ s.fb_w
    → y + h ≤ s.fb_h
    → Stays s (blur_pass x y w h g)
unfolding blur_pass
blur_pass-Stays {s} x y w h g before a b =
    for_each-Stays_within h 0 _ _ (Stays-trans before blurred) (λ j t l m stays.
      for_each-Stays_within w 0 _ t stays (λ i u l' m' stays'. Stays-trans stays' (
        copy_pixel-Stays x y j i u (omega (arith, a, stays'.same_w))
          (omega (arith, b, stays'.same_h)))))
  where
    blurred : Stays g (for_each h 0 (λ j. for_each w 0 (λ i. blur_pixel x y w h j i)) g)
    blurred = nested-Stays h w (λ j i. blur_pixel x y w h j i) g (blur_pixel-Stays x y w h)

pub blur_region-Stays :
    (x y w h passes : ℕ) (g : Gfx)
    → IsScreen g
    → x < 2 ^ 32
    → y < 2 ^ 32
    → w < 2 ^ 32
    → h < 2 ^ 32
    → Stays g (gfx_blur_region x y w h passes g)
unfolding gfx_blur_region
blur_region-Stays x y w h passes g v lx ly lw lh =
    let cx = clip g.fb_w x w in
    let cy = clip g.fb_h y h in
    elim (Bool-cases (is_empty cx.1 || is_empty cy.1)) [
      | inl none ↦ rw none (Stays-refl g)
      | inr some ↦
          let across =
            clip_fits g.fb_w x w (omega (arith, v.width)) lx lw
              (or_left (is_empty cx.1) (is_empty cy.1) some) in
          let down =
            clip_fits g.fb_h y h (omega (arith, v.height)) ly lh
              (or_right (is_empty cx.1) (is_empty cy.1) some) in
          rw some (
            for_each-Stays_within _ 0 _ g (Stays-refl g)
              (λ p t l m stays. blur_pass-Stays cx.0 cy.0 cx.1 cy.1 t stays across down))
    ]

glass_highlight-Stays : (x y w h r : ℕ) (g : Gfx) → Stays g (gfx_glass_highlight x y w h r g)
unfolding gfx_glass_highlight
glass_highlight-Stays x y w h r g =
    nested-Stays _ _ _ g (λ j i t. choose-Stays _ (blend_pixel-Stays _ _ _ t) (Stays-refl t))

glass_specular-Stays : (x y w h r : ℕ) (g : Gfx) → Stays g (gfx_glass_specular x y w h r g)
unfolding gfx_glass_specular
glass_specular-Stays x y w h r g =
    nested-Stays _ _ _ g (λ j i t. choose-Stays _ (blend_pixel-Stays _ _ _ t) (Stays-refl t))

dark_edge-Stays : (x y w h r : ℕ) (g : Gfx) → Stays g (dark_edge x y w h r g)
unfolding dark_edge
dark_edge-Stays x y w h r g =
    nested-Stays _ _ _ g (λ j i t. choose-Stays _ (blend_pixel-Stays _ _ _ t) (Stays-refl t))

-- A screen stays one.
pub kept : {g t : Gfx} → IsScreen g → Stays g t → IsScreen t
kept v s = record {
  some_width = rw (s.same_w) v.some_width;
  width = rw (s.same_w) v.width;
  some_height = rw (s.same_h) v.some_height;
  height = rw (s.same_h) v.height;
}

module _ {g : Gfx} (v : IsScreen g) (x y w h r tint passes : ℕ) (lx : x < 2 ^ 32) (ly : y < 2 ^ 32)
    (lw : w < 2 ^ 32) (lh : h < 2 ^ 32) where
  pub glass_region-Stays : Stays g (gfx_glass_region x y w h r tint passes g)
  unfolding gfx_glass_region
  glass_region-Stays = Stays-trans (blur_region-Stays x y w h passes g v lx ly lw lh) (
      Stays-trans (rounded_rect_alpha-Stays x y w h r tint _) (rounded_outline-Stays x y w h r _ _))

  glass_shadow-Stays : Stays g (gfx_glass_shadow x y w h r passes g)
  unfolding gfx_glass_shadow
  glass_shadow-Stays =
      let first = rounded_rect_alpha-Stays (word (x + 3)) (word (y + 3)) w h r 0x30000000 g in
      Stays-trans first (
        blur_region-Stays (word (x + 3)) (word (y + 3)) w h passes _ (kept v first) (omega arith)
          (omega arith) lw lh)

  pub liquid_glass-Stays : Stays g (gfx_liquid_glass x y w h r tint passes g)
  unfolding gfx_liquid_glass
  liquid_glass-Stays = Stays-trans glass_shadow-Stays (
      Stays-trans (blur_region-Stays x y w h passes _ (kept v glass_shadow-Stays) lx ly lw lh) (
        Stays-trans (rounded_rect_alpha-Stays x y w h r tint _) (
          Stays-trans (rounded_outline-Stays x y w h r _ _) (
            Stays-trans (glass_highlight-Stays x y w h r _)
              (Stays-trans (glass_specular-Stays x y w h r _) (dark_edge-Stays x y w h r _))))))
