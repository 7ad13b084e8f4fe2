-- ===== src/Gfx/Shapes.antt =====
-- Lines, outlines, gradients and circles of lib/gfxlib.c.
use artyom_x.Base.{ℕ, ◌+◌, ◌-◌, ◌*◌, ◌/◌, ◌&&◌, Bool, true, false, not, ltb, if◌then◌else◌}
use artyom_x.Gfx.{
  Gfx, word, is_negative, int_lt, int_le, int_sub, int_div, rounds, for_each, gfx_pixel,
  blend_pixel, channel, opaque,
}

-- Both coordinates of the signed distance to a corner are squared.
abbrev pub near : ℕ → ℕ → ℕ → Bool
near dx dy r = int_le (word (word (dx * dx) + word (dy * dy))) (word (r * r))

pub in_rounded : ℕ → ℕ → ℕ → ℕ → ℕ → Bool
in_rounded px py w h r =
    let cx = if int_lt px r then r else int_sub (int_sub w 1) r in
    let cy = if int_lt py r then r else int_sub (int_sub h 1) r in
    if int_le r px && int_lt px (int_sub w r)
    then true
    else if int_le r py && int_lt py (int_sub h r)
    then true
    else near (int_sub px cx) (int_sub py cy) r

-- `if (radius * 2 > w) radius = w / 2;` and the same for `h`.
pub fit_radius : ℕ → ℕ → ℕ → ℕ
fit_radius w h radius =
    let r = if int_lt w (word (radius * 2)) then int_div w 2 else radius in
    if int_lt h (word (r * 2)) then int_div h 2 else r

unfoldable pub gfx_rounded_rect : ℕ → ℕ → ℕ → ℕ → ℕ → ℕ → Gfx → Gfx
gfx_rounded_rect x y w h radius color =
    let r = fit_radius w h radius in
    for_each (rounds h) 0 (λ j.
      for_each (rounds w) 0 (λ i g.
        if in_rounded i j w h r then gfx_pixel (word (x + i)) (word (y + j)) color g else g))

unfoldable pub gfx_rounded_rect_alpha : ℕ → ℕ → ℕ → ℕ → ℕ → ℕ → Gfx → Gfx
gfx_rounded_rect_alpha x y w h radius argb =
    let r = fit_radius w h radius in
    for_each (rounds h) 0 (λ j.
      for_each (rounds w) 0 (λ i g.
        if in_rounded i j w h r then blend_pixel (word (x + i)) (word (y + j)) argb g else g))

unfoldable pub gfx_hline : ℕ → ℕ → ℕ → ℕ → Gfx → Gfx
gfx_hline x y w color = for_each (rounds w) 0 (λ i. gfx_pixel (word (x + i)) y color)

unfoldable pub gfx_vline : ℕ → ℕ → ℕ → ℕ → Gfx → Gfx
gfx_vline x y h color = for_each (rounds h) 0 (λ j. gfx_pixel x (word (y + j)) color)

unfoldable pub gfx_rect_outline : ℕ → ℕ → ℕ → ℕ → ℕ → Gfx → Gfx
gfx_rect_outline x y w h color g = gfx_vline (int_sub (word (x + w)) 1) y h color (
    gfx_vline x y h color
      (gfx_hline x (int_sub (word (y + h)) 1) w color (gfx_hline x y w color g)))

-- Is the pixel and are its four neighbours in the shape?
pub is_inner : ℕ → ℕ → ℕ → ℕ → ℕ → Bool
is_inner i j w h r =
    if int_le 1 i && (int_le 1 j && (int_lt i (int_sub w 1) && int_lt j (int_sub h 1)))
    then in_rounded i j w h r
      && (in_rounded (int_sub i 1) j w h r
          && (in_rounded (i + 1) j w h r
              && (in_rounded i (int_sub j 1) w h r && in_rounded i (j + 1) w h r)))
    else false

unfoldable pub gfx_rounded_outline : ℕ → ℕ → ℕ → ℕ → ℕ → ℕ → Gfx → Gfx
gfx_rounded_outline x y w h radius color =
    let r = fit_radius w h radius in
    for_each (rounds h) 0 (λ j. for_each (rounds w) 0 (λ i g.
      if in_rounded i j w h r && not (is_inner i j w h r)
      then gfx_pixel (word (x + i)) (word (y + j)) color g
      else g))

-- `(ar * it + br * t) >> 8`, in 32 bits.
abbrev pub lerp_channel : ℕ → ℕ → ℕ → ℕ
lerp_channel t a b = word (a * (256 - t) + b * t) / 256

pub gfx_lerp_color : ℕ → ℕ → ℕ → ℕ
gfx_lerp_color a b t =
    let t' = if is_negative t then 0 else if ltb 256 t then 256 else t in
    opaque (lerp_channel t' (channel 16 a) (channel 16 b))
      (lerp_channel t' (channel 8 a) (channel 8 b)) (lerp_channel t' (channel 0 a) (channel 0 b))

unfoldable pub gfx_vgradient : ℕ → ℕ → ℕ → ℕ → ℕ → ℕ → Gfx → Gfx
gfx_vgradient x y w h top bottom = for_each (rounds h) 0 (λ j.
    let t = if int_lt 1 h then int_div (word (j * 256)) (h - 1) else 0 in
    gfx_hline x (word (y + j)) w (gfx_lerp_color top bottom t))

-- The loops from `-r` to `r`.
unfoldable pub gfx_circle : ℕ → ℕ → ℕ → ℕ → Gfx → Gfx
gfx_circle cx cy r c =
    let n = if is_negative r then 0 else 2 * r + 1 in
    for_each n 0 (λ b.
      let y = int_sub b r in
      for_each n 0 (λ a g.
        let x = int_sub a r in
        if near x y r then gfx_pixel (word (cx + x)) (word (cy + y)) c g else g))
