-- ===== src/Gfx/Draws/Text.antt =====
-- Text and copied pictures of lib/gfxlib.c stay inside the back buffer.
use artyom_x.Base.{ℕ, ◌+◌, ◌*◌, ◌^◌, ◌<◌, Bool, false, ◌==◌, arith, ◌||◌, List, [], ◌∷◌}
use artyom_x.Libc.{Memory}
use artyom_x.Gfx.{Gfx, word, is_empty, gfx_fill_rect}
use artyom_x.Gfx.Fill.{IsScreen}
use artyom_x.Gfx.Text.{
  gfx_draw_char_8x8, gfx_draw_string_8x8, text_from, gfx_text, scaled_char, scaled_from,
  gfx_text_scaled, gfx_blit_argb, gfx_blit_argb_scaled, is_set,
}
use artyom_x.Gfx.Stays.{
  Stays, Stays-refl, Stays-trans, for_each-Stays_within, choose-Stays, gfx_pixel-Stays,
  blend_pixel-Stays, update_rect-Stays,
}
use artyom_x.Gfx.Draws.Shapes.{nested-Stays}
use artyom_x.Gfx.Draws.Glass.{kept}

draw_char-Stays :
    (font : ℕ → ℕ → ℕ) (c x y fg bg : ℕ) (bgon : Bool) (g : Gfx)
    → Stays g (gfx_draw_char_8x8 font c x y fg bg bgon g)
unfolding gfx_draw_char_8x8
draw_char-Stays font c x y fg bg bgon g = nested-Stays 8 8 _ g (λ cy cx t.
    choose-Stays (is_set (font c cy) cx) (gfx_pixel-Stays _ _ fg t)
      (choose-Stays bgon (gfx_pixel-Stays _ _ bg t) (Stays-refl t)))

pub draw_string-Stays :
    (font : ℕ → ℕ → ℕ) (s : List ℕ) (x y fg bg : ℕ) (bgon : Bool) (g : Gfx)
    → Stays g (gfx_draw_string_8x8 font s x y fg bg bgon g)
unfolding gfx_draw_string_8x8
draw_string-Stays font [] x y fg bg bgon g = Stays-refl g
draw_string-Stays font (c ∷ s) x y fg bg bgon g = choose-Stays (c == 0) (Stays-refl g) (
    Stays-trans (draw_char-Stays font c x y fg bg bgon g)
      (draw_string-Stays font s _ y fg bg bgon _))

text_from-Stays :
    (font : ℕ → ℕ → ℕ) (s : List ℕ) (ox x y color : ℕ) (g : Gfx)
    → Stays g (text_from font s ox x y color g)
unfolding text_from
text_from-Stays font [] ox x y color g = Stays-refl g
text_from-Stays font (c ∷ s) ox x y color g = choose-Stays (c == 0) (Stays-refl g) (
    choose-Stays (c == 10) (text_from-Stays font s ox ox _ color g) (
      Stays-trans (draw_char-Stays font c x y color 0 false g)
        (text_from-Stays font s ox _ y color _)))

pub text-Stays :
    (font : ℕ → ℕ → ℕ) (s : List ℕ) (x y color : ℕ) (g : Gfx)
    → Stays g (gfx_text font s x y color g)
unfolding gfx_text
text-Stays font s x y color g = text_from-Stays font s x x y color g

scaled_char-Stays :
    (font : ℕ → ℕ → ℕ) (c x y color scale : ℕ) {g : Gfx}
    → IsScreen g
    → scale < 2 ^ 32
    → Stays g (scaled_char font c x y color scale g)
unfolding scaled_char gfx_fill_rect
scaled_char-Stays font c x y color scale {g} v l =
    for_each-Stays_within 8 0 _ g (Stays-refl g) (λ cy t a b s.
      for_each-Stays_within 8 0 _ t s (λ cx u a' b' s'. Stays-trans s' (
        choose-Stays (is_set (font c cy) cx)
          (update_rect-Stays (λ p. color) (word (x + cx * scale)) (word (y + cy * scale)) scale
            scale u (kept v s') (omega arith) l (omega arith) l)
          (Stays-refl u))))

scaled_from-Stays :
    (font : ℕ → ℕ → ℕ) (s : List ℕ) (ox x y color scale : ℕ) {g : Gfx}
    → IsScreen g
    → scale < 2 ^ 32
    → Stays g (scaled_from font s ox x y color scale g)
unfolding scaled_from
scaled_from-Stays font [] ox x y color scale {g} v l = Stays-refl g
scaled_from-Stays font (c ∷ s) ox x y color scale {g} v l =
    let first = scaled_char-Stays font c x y color scale v l in
    choose-Stays (c == 0) (Stays-refl g) (
      choose-Stays (c == 10) (scaled_from-Stays font s ox ox _ color scale v l)
        (Stays-trans first (scaled_from-Stays font s ox _ y color scale (kept v first) l)))

pub text_scaled-Stays :
    (font : ℕ → ℕ → ℕ) (s : List ℕ) (x y color scale : ℕ) {g : Gfx}
    → IsScreen g
    → scale < 2 ^ 32
    → Stays g (gfx_text_scaled font s x y color scale g)
unfolding gfx_text_scaled
text_scaled-Stays font s x y color scale v l = scaled_from-Stays font s x x y color scale v l

pub blit-Stays : (src : Memory) (sw sh x y : ℕ) (g : Gfx) → Stays g (gfx_blit_argb src sw sh x y g)
unfolding gfx_blit_argb
blit-Stays src sw sh x y g = nested-Stays _ _ _ g (λ j i t. blend_pixel-Stays _ _ _ t)

pub blit_scaled-Stays :
    (src : Memory) (sw sh x y w h : ℕ) (g : Gfx)
    → Stays g (gfx_blit_argb_scaled src sw sh x y w h g)
unfolding gfx_blit_argb_scaled
blit_scaled-Stays src sw sh x y w h g =
    choose-Stays (is_empty w || (is_empty h || (is_empty sw || is_empty sh))) (Stays-refl g)
      (nested-Stays h w _ g (λ j i t. blend_pixel-Stays _ _ _ t))
