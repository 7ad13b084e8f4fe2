-- ===== src/Gfx/Glass.antt =====
-- The blur and the glass effects of lib/gfxlib.c.
use artyom_x.Base.{ℕ, ◌+◌, ◌-◌, ◌*◌, ◌/◌, ◌^◌, ◌&&◌, ◌||◌, ltb, if◌then◌else◌, bit_or}
use artyom_x.Libc.{store}
use artyom_x.Gfx.{
  Gfx, word, is_negative, int_lt, int_le, int_sub, int_div, rounds, for_each, blend_pixel, channel,
  opaque, clip, is_empty,
}
use artyom_x.Gfx.Shapes.{near, in_rounded, fit_radius, gfx_rounded_rect_alpha, gfx_rounded_outline}

-- One channel of the mean of a pixel, counted twice, and its neighbours.
abbrev pub blur_channel : ℕ → ℕ → ℕ → ℕ → ℕ → ℕ → ℕ
blur_channel s cc l r u d =
    (channel s cc * 2 + channel s l + channel s r + channel s u + channel s d) / 6

pub blur_value : ℕ → ℕ → ℕ → ℕ → ℕ → ℕ
blur_value cc l r u d =
    opaque (blur_channel 16 cc l r u d) (blur_channel 8 cc l r u d) (blur_channel 0 cc l r u d)

-- The pixel `i`, `j` of a clipped region, into the second buffer and back.
unfoldable pub blur_pixel : ℕ → ℕ → ℕ → ℕ → ℕ → ℕ → Gfx → Gfx
blur_pixel x y w h j i g =
    let k = (y + j) * g.fb_w + (x + i) in
    let cc = g.backbuffer k in
    let l = if ltb 0 i then g.backbuffer (k - 1) else cc in
    let r = if ltb i (w - 1) then g.backbuffer (k + 1) else cc in
    let u = if ltb 0 j then g.backbuffer ((y + j - 1) * g.fb_w + (x + i)) else cc in
    let d = if ltb j (h - 1) then g.backbuffer ((y + j + 1) * g.fb_w + (x + i)) else cc in
    record g { blurtmp = store g.blurtmp k (blur_value cc l r u d) }

unfoldable pub copy_pixel : ℕ → ℕ → ℕ → ℕ → Gfx → Gfx
copy_pixel x y j i g =
    let k = (y + j) * g.fb_w + (x + i) in
    record g { backbuffer = store g.backbuffer k (g.blurtmp k) }

unfoldable pub blur_pass : ℕ → ℕ → ℕ → ℕ → Gfx → Gfx
blur_pass x y w h g =
    for_each h 0 (λ j. for_each w 0 (λ i. copy_pixel x y j i))
      (for_each h 0 (λ j. for_each w 0 (λ i. blur_pixel x y w h j i)) g)

unfoldable pub gfx_blur_region : ℕ → ℕ → ℕ → ℕ → ℕ → Gfx → Gfx
gfx_blur_region x y w h passes g =
    let (x', w') = clip g.fb_w x w in
    let (y', h') = clip g.fb_h y h in
    if is_empty w' || is_empty h'
    then g
    else for_each (rounds passes) 0 (λ p. blur_pass x' y' w' h') g

unfoldable pub gfx_glass_region : ℕ → ℕ → ℕ → ℕ → ℕ → ℕ → ℕ → Gfx → Gfx
gfx_glass_region x y w h radius tint_argb blur_passes g =
    gfx_rounded_outline x y w h radius 0x40ffffff
      (gfx_rounded_rect_alpha x y w h radius tint_argb (gfx_blur_region x y w h blur_passes g))

abbrev pub at_least : ℕ → ℕ → ℕ
at_least n r = if int_lt r n then n else r

-- `((uint32_t)alpha << 24) | 0x00FFFFFF`, a negative `alpha` being 0.
abbrev pub white : ℕ → ℕ
white alpha = bit_or (word ((if is_negative alpha then 0 else alpha) * 2 ^ 24)) 0xffffff

unfoldable pub gfx_glass_highlight : ℕ → ℕ → ℕ → ℕ → ℕ → Gfx → Gfx
gfx_glass_highlight x y w h radius =
    let r = at_least 1 (fit_radius w h radius) in
    let hl_h = at_least 2 (int_div h 3) in
    for_each (rounds (if int_lt h hl_h then h else hl_h)) 0 (λ j. for_each (rounds w) 0 (λ i g.
      if in_rounded i j w h r
      then blend_pixel (word (x + i)) (word (y + j))
          (white (int_sub 0x60 (int_div (word (j * 0x60)) hl_h))) g
      else g))

unfoldable pub gfx_glass_specular : ℕ → ℕ → ℕ → ℕ → ℕ → Gfx → Gfx
gfx_glass_specular x y w h radius =
    let r = at_least 1 (fit_radius w h radius) in
    let cx = int_div w 4 in
    let cy = int_div h 4 in
    let sr = at_least 2 (int_div (if int_lt w h then w else h) 6) in
    for_each (2 * sr + 1) 0 (λ b.
      let j = int_sub b sr in
      for_each (2 * sr + 1) 0 (λ a g.
        let i = int_sub a sr in
        let dist = word (word (i * i) + word (j * j)) in
        if near i j sr && in_rounded (word (cx + i)) (word (cy + j)) w h r
        then blend_pixel (word (word (x + cx) + i)) (word (word (y + cy) + j))
            (white (int_sub 0x90 (int_div (word (dist * 0x90)) (word (sr * sr))))) g
        else g))

unfoldable pub gfx_glass_shadow : ℕ → ℕ → ℕ → ℕ → ℕ → ℕ → Gfx → Gfx
gfx_glass_shadow x y w h radius blur_passes g =
    gfx_blur_region (word (x + 3)) (word (y + 3)) w h blur_passes
      (gfx_rounded_rect_alpha (word (x + 3)) (word (y + 3)) w h radius 0x30000000 g)

-- The dark edge at the foot, the last loop of `gfx_liquid_glass`.
unfoldable pub dark_edge : ℕ → ℕ → ℕ → ℕ → ℕ → Gfx → Gfx
dark_edge x y w h radius = for_each (rounds h) 0 (λ j. for_each (rounds w) 0 (λ i g.
    if in_rounded i j w h radius && int_le (int_sub h 3) j
    then blend_pixel (word (x + i)) (word (y + j))
        (word (int_div (word (int_sub (int_sub h 1) j * 0x30)) 3 * 2 ^ 24)) g
    else g))

unfoldable pub gfx_liquid_glass : ℕ → ℕ → ℕ → ℕ → ℕ → ℕ → ℕ → Gfx → Gfx
gfx_liquid_glass x y w h radius tint_argb blur_passes g =
    let shadowed = gfx_glass_shadow x y w h radius blur_passes g in
    let blurred = gfx_blur_region x y w h blur_passes shadowed in
    let tinted = gfx_rounded_rect_alpha x y w h radius tint_argb blurred in
    let outlined = gfx_rounded_outline x y w h radius 0x60ffffff tinted in
    let lit = gfx_glass_specular x y w h radius (gfx_glass_highlight x y w h radius outlined) in
    dark_edge x y w h radius lit
