-- ===== src/Gfx/Text.antt =====
-- Text and copied pictures of lib/gfxlib.c. The font is an argument, the row `cy` of the glyph `c`
-- being `font c cy`; a text ends with its list or at a 0.
use artyom_x.Base.{
  ℕ, ◌+◌, ◌*◌, ◌/◌, ◌%◌, ◌^◌, ◌||◌, Bool, false, ◌==◌, if◌then◌else◌, List, [], ◌∷◌,
}
use artyom_x.Libc.{Memory}
use artyom_x.Gfx.{
  Gfx, word, int_div, rounds, for_each, gfx_pixel, blend_pixel, gfx_fill_rect, is_empty,
}

-- `row & (1 << cx)`.
abbrev pub is_set : ℕ → ℕ → Bool
is_set row cx = row / 2 ^ cx % 2 == 1

unfoldable pub gfx_draw_char_8x8 : (ℕ → ℕ → ℕ) → ℕ → ℕ → ℕ → ℕ → ℕ → Bool → Gfx → Gfx
gfx_draw_char_8x8 font c x y fg bg bgon = for_each 8 0 (λ cy. for_each 8 0 (λ cx g.
    if is_set (font c cy) cx
    then gfx_pixel (word (x + cx)) (word (y + cy)) fg g
    else if bgon
    then gfx_pixel (word (x + cx)) (word (y + cy)) bg g
    else g))

unfoldable pub gfx_draw_string_8x8 : (ℕ → ℕ → ℕ) → List ℕ → ℕ → ℕ → ℕ → ℕ → Bool → Gfx → Gfx
gfx_draw_string_8x8 font [] x y fg bg bgon g = g
gfx_draw_string_8x8 font (c ∷ s) x y fg bg bgon g =
    let rest =
      gfx_draw_string_8x8 font s (word (x + 8)) y fg bg bgon
        (gfx_draw_char_8x8 font c x y fg bg bgon g) in
    if c == 0 then g else rest

-- The loop of `gfx_text`, which goes back to the column `ox` in a new line.
unfoldable pub text_from : (ℕ → ℕ → ℕ) → List ℕ → ℕ → ℕ → ℕ → ℕ → Gfx → Gfx
text_from font [] ox x y color g = g
text_from font (c ∷ s) ox x y color g =
    let next_line = text_from font s ox ox (word (y + 9)) color g in
    let next_char =
      text_from font s ox (word (x + 8)) y color (gfx_draw_char_8x8 font c x y color 0 false g) in
    if c == 0 then g else if c == 10 then next_line else next_char

unfoldable pub gfx_text : (ℕ → ℕ → ℕ) → List ℕ → ℕ → ℕ → ℕ → Gfx → Gfx
gfx_text font s x y color g = text_from font s x x y color g

-- One glyph of squares of `scale` pixels.
unfoldable pub scaled_char : (ℕ → ℕ → ℕ) → ℕ → ℕ → ℕ → ℕ → ℕ → Gfx → Gfx
scaled_char font c x y color scale = for_each 8 0 (λ cy. for_each 8 0 (λ cx g.
    if is_set (font c cy) cx
    then gfx_fill_rect (word (x + cx * scale)) (word (y + cy * scale)) scale scale color g
    else g))

unfoldable pub scaled_from : (ℕ → ℕ → ℕ) → List ℕ → ℕ → ℕ → ℕ → ℕ → ℕ → Gfx → Gfx
scaled_from font [] ox x y color scale g = g
scaled_from font (c ∷ s) ox x y color scale g =
    let next_line = scaled_from font s ox ox (word (y + 9 * scale)) color scale g in
    let next_char =
      scaled_from font s ox (word (x + 8 * scale)) y color scale
        (scaled_char font c x y color scale g) in
    if c == 0 then g else if c == 10 then next_line else next_char

unfoldable pub gfx_text_scaled : (ℕ → ℕ → ℕ) → List ℕ → ℕ → ℕ → ℕ → ℕ → Gfx → Gfx
gfx_text_scaled font s x y color scale g = scaled_from font s x x y color scale g

-- The pixels `src` of a picture of `sw` columns.
unfoldable pub gfx_blit_argb : Memory → ℕ → ℕ → ℕ → ℕ → Gfx → Gfx
gfx_blit_argb src sw sh dx dy = for_each (rounds sh) 0 (λ j.
    for_each (rounds sw) 0 (λ i. blend_pixel (word (dx + i)) (word (dy + j)) (src (j * sw + i))))

unfoldable pub gfx_blit_argb_scaled : Memory → ℕ → ℕ → ℕ → ℕ → ℕ → ℕ → Gfx → Gfx
gfx_blit_argb_scaled src sw sh dx dy dw dh g =
    if is_empty dw || (is_empty dh || (is_empty sw || is_empty sh))
    then g
    else for_each dh 0
        (λ j.
          let sy = int_div (word (j * sh)) dh in
          for_each dw 0 (λ i.
            let sx = int_div (word (i * sw)) dw in
            blend_pixel (word (dx + i)) (word (dy + j)) (src (sy * sw + sx))))
        g
