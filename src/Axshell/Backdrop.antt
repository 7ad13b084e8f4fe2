-- ===== src/Axshell/Backdrop.antt =====
-- The wallpaper of kernel/axshell.c, its fade and the slideshow.
pub mod Fade
use artyom_x.Base.{
  ℕ, zero, suc, ◌+◌, ◌*◌, ◌-◌, ◌%◌, ◌^◌, ◌≤◌, ◌<◌, ◌≡◌, ◌≢◌, ◌⊎◌, ◌&&◌, inl, inr, refl, sym, ◌∙◌,
  true, false, not, List, [], ◌∷◌, ltb, leb, ◌==◌, if◌then◌else◌, elim_if, arith,
}
use native.Mathlib.Nat.{mod-lt}
use artyom_x.Gfx.{is_negative, int_le}

-- The static variables; what is drawn is left out.
pub record Backdrop : Type 0 where
  pub wallpaper_index : ℕ
  pub wallpaper_mode : ℕ
  pub photo_count : ℕ
  pub current_photo : ℕ
  pub slideshow_counter : ℕ
  pub wallpaper_fade : ℕ
  pub wallpaper_fade_dir : ℕ
  pub prev_wallpaper_index : ℕ
  pub prev_photo_index : ℕ

abbrev pub wallpaper_count : ℕ
wallpaper_count = 5

abbrev pub slideshow_interval : ℕ
slideshow_interval = 600

-- What a change of the wallpaper, a step of the fade and one of the slideshow set.
abbrev pub fade_to : ℕ → Backdrop → Backdrop
fade_to index b = record b {
  prev_wallpaper_index = b.wallpaper_index;
  wallpaper_index = index;
  wallpaper_fade = 0;
  wallpaper_fade_dir = 1;
}

abbrev pub fade_done : Backdrop → Backdrop
fade_done b = record b { wallpaper_fade = 256; wallpaper_fade_dir = 0 }

abbrev pub fade_on : Backdrop → Backdrop
fade_on b = record b { wallpaper_fade = b.wallpaper_fade + 16 }

abbrev pub next_photo : Backdrop → Backdrop
next_photo b = record b {
  slideshow_counter = 0;
  prev_photo_index = b.current_photo;
  current_photo = (b.current_photo + 1) % b.photo_count;
  wallpaper_fade = 0;
  wallpaper_fade_dir = 1;
}

abbrev pub count_on : Backdrop → Backdrop
count_on b = record b { slideshow_counter = b.slideshow_counter + 1 }

-- The index is an `int`.
abbrev pub fit_index : ℕ → ℕ
fit_index index =
    let low = if is_negative index then 0 else index in
    if int_le wallpaper_count low then wallpaper_count - 1 else low

unfoldable pub ax_set_wallpaper : ℕ → Backdrop → Backdrop
ax_set_wallpaper index b =
    if fit_index index == b.wallpaper_index then b else fade_to (fit_index index) b

unfoldable pub fade_step : Backdrop → Backdrop
fade_step b =
    if not (b.wallpaper_fade_dir == 1)
    then b
    else if leb 256 (b.wallpaper_fade + 16)
    then fade_done b
    else fade_on b

unfoldable pub slide_step : Backdrop → Backdrop
slide_step b =
    if not ((b.wallpaper_mode == 2) && ltb 1 b.photo_count)
    then b
    else if leb slideshow_interval (b.slideshow_counter + 1)
    then next_photo b
    else count_on b

unfoldable pub wallpaper_tick : Backdrop → Backdrop
wallpaper_tick b = slide_step (fade_step b)

unfoldable pub ticks : ℕ → Backdrop → Backdrop
ticks zero b = b
ticks (suc n) b = ticks n (wallpaper_tick b)

pub data Turn : Type 0 where
  chosen : ℕ → Turn
  tick : Turn

unfoldable pub turns : List Turn → Backdrop → Backdrop
turns [] b = b
turns (chosen index ∷ more) b = turns more (ax_set_wallpaper index b)
turns (tick ∷ more) b = turns more (wallpaper_tick b)

-- The indices are those of a wallpaper and of a photo, and the fade is one in 256.
pub record IsBackdrop (b : Backdrop) : Type 0 where
  pub index : b.wallpaper_index < 5
  pub previous : b.prev_wallpaper_index < 5
  pub photo : 1 ≤ b.photo_count → b.current_photo < b.photo_count
  pub fade : b.wallpaper_fade ≤ 256
  pub counter : b.slideshow_counter < 600

ax_set_wallpaper-IsBackdrop :
    (index : ℕ) {b : Backdrop}
    → index < 2 ^ 32
    → IsBackdrop b
    → IsBackdrop (ax_set_wallpaper index b)
unfolding ax_set_wallpaper
ax_set_wallpaper-IsBackdrop index {b} small v =
    elim_if IsBackdrop _ {x = b} {y = fade_to (fit_index index) b} (λ same. v)
      (λ other. record {
        index = ground (arith, small);
        previous = v.index;
        photo = v.photo;
        fade = omega arith;
        counter = v.counter;
      })

fade_step-IsBackdrop : {b : Backdrop} → IsBackdrop b → IsBackdrop (fade_step b)
unfolding fade_step
fade_step-IsBackdrop {b} v =
    elim_if IsBackdrop (not (b.wallpaper_fade_dir == 1)) (λ e. v)
      (λ e.
        elim_if IsBackdrop (leb 256 (b.wallpaper_fade + 16)) {x = fade_done b} {y = fade_on b}
          (λ f. record {
            index = v.index;
            previous = v.previous;
            photo = v.photo;
            fade = omega arith;
            counter = v.counter;
          })
          (λ f. record {
            index = v.index;
            previous = v.previous;
            photo = v.photo;
            fade = ground (arith, f);
            counter = v.counter;
          }))

slide_step-IsBackdrop : {b : Backdrop} → IsBackdrop b → IsBackdrop (slide_step b)
unfolding slide_step
slide_step-IsBackdrop {b} v =
    elim_if IsBackdrop (not ((b.wallpaper_mode == 2) && ltb 1 b.photo_count)) (λ e. v)
      (λ e.
        elim_if IsBackdrop _ {x = next_photo b} {y = count_on b}
          (λ f. record {
            index = v.index;
            previous = v.previous;
            photo = λ some_photo. mod-lt (b.current_photo + 1) (omega arith);
            fade = omega arith;
            counter = omega arith;
          })
          (λ f. record {
            index = v.index;
            previous = v.previous;
            photo = v.photo;
            fade = v.fade;
            counter = ground (arith, f);
          }))

abbrev AllWords : List Turn → Type 0
AllWords [] = Unit
AllWords (chosen index ∷ more) = (index < 2 ^ 32) × AllWords more
AllWords (tick ∷ more) = AllWords more

-- Whatever wallpapers are chosen, for any int, and however many ticks pass, the indices stay those of a
-- wallpaper and of a photo that there is, and the fade stays within 0 and 256.
pub turns-IsBackdrop :
    (more : List Turn) (b : Backdrop) → AllWords more → IsBackdrop b → IsBackdrop (turns more b)
unfolding turns wallpaper_tick
turns-IsBackdrop [] b a v = v
turns-IsBackdrop (chosen index ∷ more) b a v =
    turns-IsBackdrop more (ax_set_wallpaper index b) a.1 (ax_set_wallpaper-IsBackdrop index a.0 v)
turns-IsBackdrop (tick ∷ more) b a v =
    turns-IsBackdrop more (wallpaper_tick b) a (slide_step-IsBackdrop (fade_step-IsBackdrop v))
