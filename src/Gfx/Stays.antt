-- ===== src/Gfx/Stays.antt =====
-- No function of lib/gfxlib.c writes outside the back buffer, whatever its arguments are.
use artyom_x.Base.{
  ℕ, zero, suc, ◌+◌, ◌*◌, ◌/◌, ◌^◌, ◌≤◌, ◌<◌, ◌≡◌, ◌∙◌, inl, inr, refl, Bool, true, false, ltb,
  ◌==◌, if◌then◌else◌, arith, ◌||◌, Bool-cases, dec_lt,
}
use artyom_x.Libc.{store}
use artyom_x.Gfx.{
  Gfx, word, is_negative, is_outside, for_each, gfx_pixel, blend_pixel, clip, clip_high, is_empty,
  update_rect,
}
use artyom_x.Libc.Copy.{within}
use artyom_x.Gfx.Fill.{IsScreen}
use artyom_x.Gfx.Region.{update_rows-at}
use native.Mathlib.Nat.{mul-le-mul_right, div-add-mod', mod-lt}

-- `t` is `g` with other pixels in the buffer.
pub record Stays (g t : Gfx) : Type 0 where
  pub same_w : t.fb_w ≡ g.fb_w
  pub same_h : t.fb_h ≡ g.fb_h
  pub beyond : (k : ℕ) → g.fb_h * g.fb_w ≤ k → t.backbuffer k ≡ g.backbuffer k

pub Stays-refl : (g : Gfx) → Stays g g
Stays-refl g = record { same_w = refl; same_h = refl; beyond = λ k h. refl }

pub Stays-trans : {g t u : Gfx} → Stays g t → Stays t u → Stays g u
Stays-trans a b = record {
  same_w = b.same_w ∙ a.same_w;
  same_h = b.same_h ∙ a.same_h;
  beyond = λ k h. b.beyond k (rw (a.same_w, a.same_h) h) ∙ a.beyond k h;
}

-- With the bounds of the loop, and what the rounds before have left.
pub for_each-Stays_within :
    {s : Gfx} (n i : ℕ) (body : ℕ → Gfx → Gfx) (g : Gfx)
    → Stays s g
    → ((j : ℕ) (t : Gfx) → i ≤ j → j < i + n → Stays s t → Stays s (body j t))
    → Stays s (for_each n i body g)
unfolding for_each
for_each-Stays_within zero i body g before h = before
for_each-Stays_within (suc n) i body g before h =
    for_each-Stays_within n (i + 1) body (body i g) (h i g (omega arith) (omega arith) before)
      (λ j t l m. h j t (omega arith) (omega arith))

pub for_each-Stays :
    (n i : ℕ) (body : ℕ → Gfx → Gfx) (g : Gfx)
    → ((j : ℕ) (t : Gfx) → Stays t (body j t))
    → Stays g (for_each n i body g)
for_each-Stays n i body g h =
    for_each-Stays_within n i body g (Stays-refl g) (λ j t l m before. Stays-trans before (h j t))

pub choose-Stays : {g t u : Gfx} (b : Bool) → Stays g t → Stays g u → Stays g (if b then t else u)
choose-Stays true a b = a
choose-Stays false a b = b

-- A pixel of the screen has its index in the buffer.
pub index_fits : (w h x y : ℕ) → x < w → y < h → y * w + x < h * w
index_fits w h x y a b = omega (arith, mul-le-mul_right w b)

pub stored-Stays :
    (g : Gfx) (x y v : ℕ)
    → x < g.fb_w
    → y < g.fb_h
    → Stays g (record g { backbuffer = store g.backbuffer (y * g.fb_w + x) v })
stored-Stays g x y v a b = record {
  same_w = refl;
  same_h = refl;
  beyond = λ k h.
      let miss : (k == y * g.fb_w + x) ≡ false = apart k (index_fits g.fb_w g.fb_h x y a b) h in
      rw miss refl;
}
  where
    apart :
        (k : ℕ)
        → y * g.fb_w + x < g.fb_h * g.fb_w
        → g.fb_h * g.fb_w ≤ k
        → (k == y * g.fb_w + x) ≡ false
    apart k l h = ground arith

inside : (g : Gfx) (x y : ℕ) → is_outside g x y ≡ false → (x < g.fb_w) × (y < g.fb_h)
inside g x y h = ground arith

pub gfx_pixel-Stays : (x y color : ℕ) (g : Gfx) → Stays g (gfx_pixel x y color g)
unfolding gfx_pixel
gfx_pixel-Stays x y color g = elim (Bool-cases (is_outside g x y)) [
  | inl out ↦ rw out (Stays-refl g)
  | inr on ↦ let b = inside g x y on in rw on (stored-Stays g x y color b.0 b.1)
]

pub blend_pixel-Stays : (x y argb : ℕ) (g : Gfx) → Stays g (blend_pixel x y argb g)
unfolding blend_pixel
blend_pixel-Stays x y argb g = elim (Bool-cases (is_outside g x y)) [
  | inl out ↦ rw out (Stays-refl g)
  | inr on ↦ let b = inside g x y on in rw on (stored-Stays g x y _ b.0 b.1)
]

-- What is left of a range of ints after the clipping is on the screen, for all ints.
pub clip_fits :
    (size x w : ℕ)
    → size < 2 ^ 16
    → x < 2 ^ 32
    → w < 2 ^ 32
    → is_empty (clip size x w).1 ≡ false
    → (clip size x w).0 + (clip size x w).1 ≤ size
unfolding clip
clip_fits size x w a b c = elim (Bool-cases (is_negative x)) [
  | inl neg ↦ rw neg (fits 0 (word (w + x)) (omega arith) (omega arith))
  | inr pos ↦ rw pos (fits x w (ground arith) c)
]
  where
    fits :
        (x w : ℕ)
        → x < 2 ^ 31
        → w < 2 ^ 32
        → is_empty (clip_high size x w) ≡ false
        → x + clip_high size x w ≤ size
    fits x w l m = elim (Bool-cases (ltb size (word (x + w)))) [
      | inl over ↦ rw over (λ e. ground (arith, e))
      | inr under ↦ rw under (λ e. ground (arith, e))
    ]

-- An index behind the buffer is in no row of the screen.
row_beyond : (w h k : ℕ) → 0 < w → h * w ≤ k → h ≤ k / w
row_beyond w h k some_w l = elim (dec_lt (k / w) h) [
  | yes low ↦
      let e = div-add-mod' k w in
      let m = mod-lt k some_w in
      let r = mul-le-mul_right w low in absurd (omega (arith, e, m, r, l))
  | no high ↦ omega arith
]

pub or_left : (a b : Bool) → (a || b) ≡ false → a ≡ false
or_left a b e = ground arith

pub or_right : (a b : Bool) → (a || b) ≡ false → b ≡ false
or_right a b e = ground arith

pub update_rect-Stays :
    (f : ℕ → ℕ) (x y w h : ℕ) (g : Gfx)
    → IsScreen g
    → y < 2 ^ 32
    → h < 2 ^ 32
    → x < 2 ^ 32
    → w < 2 ^ 32
    → Stays g (update_rect f x y w h g)
unfolding update_rect
update_rect-Stays f x y w h g v ly lh lx lw =
    let cx = clip g.fb_w x w in
    let cy = clip g.fb_h y h in
    elim (Bool-cases (is_empty cx.1 || is_empty cy.1)) [
      | inl none ↦ rw none (Stays-refl g)
      | inr some ↦
          let across =
            clip_fits g.fb_w x w (omega (arith, v.width)) lx lw
              (or_left (is_empty cx.1) (is_empty cy.1) some) in
          let down =
            clip_fits g.fb_h y h (omega (arith, v.height)) ly lh
              (or_right (is_empty cx.1) (is_empty cy.1) some) in
          rw some (record {
            same_w = refl;
            same_h = refl;
            beyond = λ k l.
                let out : within cy.0 cy.1 (k / g.fb_w) ≡ false =
                  off (k / g.fb_w) cy.0 cy.1 down (row_beyond g.fb_w g.fb_h k v.some_width l) in
                update_rows-at g.fb_w v.some_width f cx.0 cx.1 cy.1 cy.0 g.backbuffer k across
                ∙ rw out refl;
          })
    ]
  where
    off : (j a b : ℕ) → a + b ≤ g.fb_h → g.fb_h ≤ j → within a b j ≡ false
    off j a b l m = ground arith
