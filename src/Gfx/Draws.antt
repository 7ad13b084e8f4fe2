-- ===== src/Gfx/Draws.antt =====
-- Any sequence of calls of lib/gfxlib.c stays inside the back buffer.
mod Shapes
mod Glass
mod Text
use artyom_x.Base.{
  ℕ, zero, suc, ◌+◌, ◌-◌, ◌*◌, ◌/◌, ◌%◌, ◌^◌, ◌≤◌, ◌<◌, ◌≡◌, ◌∙◌, refl, ap, Bool, true, false, not,
  leb, ltb, ◌==◌, if◌then◌else◌, arith, ◌&&◌, ◌||◌, Bool-cases, List, [], ◌∷◌, inl, inr,
}
use artyom_x.Libc.{Memory, store}
use artyom_x.Gfx.{
  Gfx, word, is_negative, int_lt, rounds, for_each, gfx_pixel, blend_pixel, gfx_blend, clip,
  is_empty, gfx_clear_rgb, gfx_fill_rect, gfx_fill_rect_alpha, update_row,
}
use artyom_x.Gfx.Region.{update_row-at}
use artyom_x.Gfx.Fill.{IsScreen}
use artyom_x.Gfx.Shapes.{
  in_rounded, is_inner, fit_radius, near, gfx_rounded_rect, gfx_rounded_rect_alpha, gfx_hline,
  gfx_vline, gfx_rect_outline, gfx_rounded_outline, gfx_vgradient, gfx_circle, gfx_lerp_color,
}
use artyom_x.Gfx.Glass.{
  blur_pixel, copy_pixel, blur_pass, gfx_blur_region, gfx_glass_region, gfx_glass_highlight,
  gfx_glass_specular, gfx_glass_shadow, dark_edge, gfx_liquid_glass,
}
use artyom_x.Gfx.Text.{
  gfx_draw_char_8x8, gfx_draw_string_8x8, text_from, gfx_text, scaled_char, scaled_from,
  gfx_text_scaled, gfx_blit_argb, gfx_blit_argb_scaled, is_set,
}
use artyom_x.Gfx.Stays.{
  Stays, Stays-refl, Stays-trans, for_each-Stays, for_each-Stays_within, choose-Stays, index_fits,
  gfx_pixel-Stays, blend_pixel-Stays, clip_fits, update_rect-Stays,
}
use artyom_x.Libc.Copy.{within}
use artyom_x.Gfx.Draws.Shapes.{
  rounded_rect-Stays, rounded_rect_alpha-Stays, hline-Stays, vline-Stays, rect_outline-Stays,
  rounded_outline-Stays, vgradient-Stays, circle-Stays,
}
use artyom_x.Gfx.Draws.Glass.{kept, blur_region-Stays, glass_region-Stays, liquid_glass-Stays}
use artyom_x.Gfx.Draws.Text.{
  draw_string-Stays, text-Stays, text_scaled-Stays, blit-Stays, blit_scaled-Stays,
}

-- A call with its arguments.
pub data Draw : Type 0 where
  pixel : ℕ → ℕ → ℕ → Draw
  fill fill_alpha rect_outline : ℕ → ℕ → ℕ → ℕ → ℕ → Draw
  vgradient rounded rounded_alpha rounded_outline : ℕ → ℕ → ℕ → ℕ → ℕ → ℕ → Draw
  circle : ℕ → ℕ → ℕ → ℕ → Draw
  blur : ℕ → ℕ → ℕ → ℕ → ℕ → Draw
  glass liquid : ℕ → ℕ → ℕ → ℕ → ℕ → ℕ → ℕ → Draw
  text : List ℕ → ℕ → ℕ → ℕ → Draw
  scaled : List ℕ → ℕ → ℕ → ℕ → ℕ → Draw
  string : List ℕ → ℕ → ℕ → ℕ → ℕ → Bool → Draw
  blit : Memory → ℕ → ℕ → ℕ → ℕ → Draw
  blit_scaled : Memory → ℕ → ℕ → ℕ → ℕ → ℕ → ℕ → Draw

-- The call with every int cut to its word.
unfoldable pub draw : (ℕ → ℕ → ℕ) → Draw → Gfx → Gfx
draw font (pixel x y c) = gfx_pixel (word x) (word y) c
draw font (fill x y w h c) = gfx_fill_rect (word x) (word y) (word w) (word h) c
draw font (fill_alpha x y w h c) = gfx_fill_rect_alpha (word x) (word y) (word w) (word h) c
draw font (rect_outline x y w h c) = gfx_rect_outline (word x) (word y) (word w) (word h) c
draw font (vgradient x y w h a b) = gfx_vgradient (word x) (word y) (word w) (word h) a b
draw font (rounded x y w h r c) = gfx_rounded_rect (word x) (word y) (word w) (word h) (word r) c
draw font (rounded_alpha x y w h r c) =
    gfx_rounded_rect_alpha (word x) (word y) (word w) (word h) (word r) c
draw font (rounded_outline x y w h r c) =
    gfx_rounded_outline (word x) (word y) (word w) (word h) (word r) c
draw font (circle x y r c) = gfx_circle (word x) (word y) (word r) c
draw font (blur x y w h p) = gfx_blur_region (word x) (word y) (word w) (word h) (word p)
draw font (glass x y w h r c p) =
    gfx_glass_region (word x) (word y) (word w) (word h) (word r) c (word p)
draw font (liquid x y w h r c p) =
    gfx_liquid_glass (word x) (word y) (word w) (word h) (word r) c (word p)
draw font (text s x y c) = gfx_text font s (word x) (word y) c
draw font (scaled s x y c k) = gfx_text_scaled font s (word x) (word y) c (word k)
draw font (string s x y fg bg bgon) = gfx_draw_string_8x8 font s (word x) (word y) fg bg bgon
draw font (blit src sw sh x y) = gfx_blit_argb src (word sw) (word sh) (word x) (word y)
draw font (blit_scaled src sw sh x y w h) =
    gfx_blit_argb_scaled src (word sw) (word sh) (word x) (word y) (word w) (word h)

unfoldable pub draws : (ℕ → ℕ → ℕ) → List Draw → Gfx → Gfx
draws font [] g = g
draws font (d ∷ ds) g = draws font ds (draw font d g)

is_word : (n : ℕ) → word n < 2 ^ 32
is_word n = omega arith

draw-Stays : (font : ℕ → ℕ → ℕ) (d : Draw) {g : Gfx} → IsScreen g → Stays g (draw font d g)
unfolding draw gfx_fill_rect gfx_fill_rect_alpha
draw-Stays font (pixel x y c) {g} v = gfx_pixel-Stays _ _ c g
draw-Stays font (fill x y w h c) {g} v =
    update_rect-Stays (λ p. c) (word x) (word y) (word w) (word h) g v (is_word y) (is_word h)
      (is_word x) (is_word w)
draw-Stays font (fill_alpha x y w h c) {g} v =
    update_rect-Stays (λ p. gfx_blend p c) (word x) (word y) (word w) (word h) g v (is_word y)
      (is_word h) (is_word x) (is_word w)
draw-Stays font (rect_outline x y w h c) {g} v = rect_outline-Stays _ _ _ _ c g
draw-Stays font (vgradient x y w h a b) {g} v = vgradient-Stays _ _ _ _ a b g
draw-Stays font (rounded x y w h r c) {g} v = rounded_rect-Stays _ _ _ _ _ c g
draw-Stays font (rounded_alpha x y w h r c) {g} v = rounded_rect_alpha-Stays _ _ _ _ _ c g
draw-Stays font (rounded_outline x y w h r c) {g} v = rounded_outline-Stays _ _ _ _ _ c g
draw-Stays font (circle x y r c) {g} v = circle-Stays _ _ _ c g
draw-Stays font (blur x y w h p) {g} v =
    blur_region-Stays (word x) (word y) (word w) (word h) _ g v (is_word x) (is_word y) (is_word w)
      (is_word h)
draw-Stays font (glass x y w h r c p) v =
    glass_region-Stays v (word x) (word y) (word w) (word h) _ c _ (is_word x) (is_word y)
      (is_word w) (is_word h)
draw-Stays font (liquid x y w h r c p) v =
    liquid_glass-Stays v (word x) (word y) (word w) (word h) _ c _ (is_word x) (is_word y)
      (is_word w) (is_word h)
draw-Stays font (text s x y c) {g} v = text-Stays font s _ _ c g
draw-Stays font (scaled s x y c k) v = text_scaled-Stays font s _ _ c (word k) v (is_word k)
draw-Stays font (string s x y fg bg bgon) {g} v = draw_string-Stays font s _ _ fg bg bgon g
draw-Stays font (blit src sw sh x y) {g} v = blit-Stays src _ _ _ _ g
draw-Stays font (blit_scaled src sw sh x y w h) {g} v = blit_scaled-Stays src _ _ _ _ _ _ g

-- Any sequence of these calls, with any ints, keeps the size of the screen and writes nothing behind
-- the pixels of the screen, however far off the screen the shapes are.
pub draws-Stays :
    (font : ℕ → ℕ → ℕ) (ds : List Draw) {g : Gfx} → IsScreen g → Stays g (draws font ds g)
unfolding draws
draws-Stays font [] {g} v = Stays-refl g
draws-Stays font (d ∷ ds) v =
    let first = draw-Stays font d v in Stays-trans first (draws-Stays font ds (kept v first))
