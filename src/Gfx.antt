-- ===== src/Gfx.antt =====
-- Drawing into the back buffer, lib/gfxlib.c. An `int` is its 32-bit word, so that a comparison with the
-- unsigned width is one of words; `is_negative` reads its sign. The buffer is a function from indices
-- to pixels. The screen is at most 1920 by 1200, so that an index does not wrap.
mod Clip
mod Region
mod Fill
mod Shapes
mod Glass
mod Text
mod Stays
mod Draws
mod Tests
use artyom_x.Base.{
  ℕ, zero, suc, ◌+◌, ◌-◌, ◌*◌, ◌/◌, ◌%◌, ◌^◌, ◌&&◌, ◌||◌, Bool, true, false, not, List, [], ◌∷◌,
  ltb, leb, ◌==◌, if◌then◌else◌, bit_or, get_or,
}
use artyom_x.Libc.{Memory, store}

pub record Gfx : Type 0 where
  pub backbuffer : Memory
  pub blurtmp : Memory
  pub fb_w : ℕ
  pub fb_h : ℕ

abbrev pub word : ℕ → ℕ
word n = n % 2 ^ 32

-- `x < 0` of an int.
abbrev pub is_negative : ℕ → Bool
is_negative x = leb (2 ^ 31) x

-- `a < b`, `a <= b`, `a - b` and `a / b` of ints, the divisor positive.
abbrev pub int_lt : ℕ → ℕ → Bool
int_lt a b = ltb (word (a + 2 ^ 31)) (word (b + 2 ^ 31))

abbrev pub int_le : ℕ → ℕ → Bool
int_le a b = leb (word (a + 2 ^ 31)) (word (b + 2 ^ 31))

abbrev pub int_sub : ℕ → ℕ → ℕ
int_sub a b = word (a + 2 ^ 32 - b)

abbrev pub int_div : ℕ → ℕ → ℕ
int_div a b = if is_negative a then int_sub 0 (int_sub 0 a / b) else a / b

-- The rounds of `for (int i = 0; i < w; i++)`.
abbrev pub rounds : ℕ → ℕ
rounds w = if is_negative w then 0 else w

-- A loop with what it does in round `i`.
pub for_each : ℕ → ℕ → (ℕ → Gfx → Gfx) → Gfx → Gfx
for_each zero i body g = g
for_each (suc n) i body g = for_each n (i + 1) body (body i g)

-- `x < 0 || y < 0 || x >= fb_w || y >= fb_h`.
abbrev pub is_outside : Gfx → ℕ → ℕ → Bool
is_outside g x y = is_negative x || (is_negative y || (leb g.fb_w x || leb g.fb_h y))

pub gfx_pixel : ℕ → ℕ → ℕ → Gfx → Gfx
gfx_pixel x y color g =
    if is_outside g x y
    then g
    else record g { backbuffer = store g.backbuffer (y * g.fb_w + x) color }

pub gfx_get_pixel : ℕ → ℕ → Gfx → ℕ
gfx_get_pixel x y g = if is_outside g x y then 0 else g.backbuffer (y * g.fb_w + x)

-- A loop over `n` pixels from an index on, with what becomes of a pixel.
pub update_row : (ℕ → ℕ) → ℕ → ℕ → Memory → Memory
update_row f zero base mem = mem
update_row f (suc n) base mem = update_row f n (base + 1) (store mem base (f (mem base)))

pub gfx_clear_rgb : ℕ → Gfx → Gfx
gfx_clear_rgb color g = record g {
  backbuffer = update_row (λ p. color) (g.fb_w * g.fb_h) 0 g.backbuffer;
}

-- A channel of a colour: `(c >> s) & 0xFF`.
abbrev pub channel : ℕ → ℕ → ℕ
channel s c = c / 2 ^ s % 256

-- `0xFF000000 | (r << 16) | (g << 8) | b`.
abbrev pub opaque : ℕ → ℕ → ℕ → ℕ
opaque r g b = bit_or (bit_or (bit_or 0xff000000 (r * 2 ^ 16)) (g * 2 ^ 8)) b

-- One channel of `gfx_blend`.
abbrev pub mix : ℕ → ℕ → ℕ → ℕ
mix a s d = (s * a + d * (255 - a)) / 255

pub gfx_blend : ℕ → ℕ → ℕ
gfx_blend dst src =
    let a = channel 24 src in
    if a == 0
    then dst
    else if a == 255
    then bit_or src 0xff000000
    else opaque (mix a (channel 16 src) (channel 16 dst)) (mix a (channel 8 src) (channel 8 dst))
        (mix a (channel 0 src) (channel 0 dst))

-- `if (gx < 0 || …) continue; uint32_t *p = …; *p = gfx_blend(*p, c);`
pub blend_pixel : ℕ → ℕ → ℕ → Gfx → Gfx
blend_pixel x y argb g =
    let k = y * g.fb_w + x in
    if is_outside g x y
    then g
    else record g { backbuffer = store g.backbuffer k (gfx_blend (g.backbuffer k) argb) }

-- The two tests on one axis: `if (x < 0) { w += x; x = 0; }` and `if (x + w > fb_w) w = fb_w - x;`.
abbrev pub clip_low : ℕ → ℕ → ℕ × ℕ
clip_low x w = if is_negative x then (0, word (w + x)) else (x, w)

abbrev pub clip_high : ℕ → ℕ → ℕ → ℕ
clip_high size x w = if ltb size (word (x + w)) then word (size + 2 ^ 32 - x) else w

pub clip : ℕ → ℕ → ℕ → ℕ × ℕ
clip size x w = let (x', w') = clip_low x w in (x', clip_high size x' w')

-- `w <= 0` of an int.
abbrev pub is_empty : ℕ → Bool
is_empty w = (w == 0) || is_negative w

-- The loops over the rows `y` on, `n` of them, and over `w` pixels of each.
pub update_rows : (ℕ → ℕ) → ℕ → ℕ → ℕ → ℕ → ℕ → Memory → Memory
update_rows f fb_w x w zero y mem = mem
update_rows f fb_w x w (suc n) y mem =
    update_rows f fb_w x w n (y + 1) (update_row f w (y * fb_w + x) mem)

-- What the two functions below share: they clip in the same words.
pub update_rect : (ℕ → ℕ) → ℕ → ℕ → ℕ → ℕ → Gfx → Gfx
update_rect f x y w h g =
    let (x', w') = clip g.fb_w x w in
    let (y', h') = clip g.fb_h y h in
    if is_empty w' || is_empty h'
    then g
    else record g { backbuffer = update_rows f g.fb_w x' w' h' y' g.backbuffer }

pub gfx_fill_rect : ℕ → ℕ → ℕ → ℕ → ℕ → Gfx → Gfx
gfx_fill_rect x y w h color g = update_rect (λ p. color) x y w h g

pub gfx_fill_rect_alpha : ℕ → ℕ → ℕ → ℕ → ℕ → Gfx → Gfx
gfx_fill_rect_alpha x y w h argb g = update_rect (λ p. gfx_blend p argb) x y w h g
