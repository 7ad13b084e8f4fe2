-- ===== src/Axshell/Backdrop/Fade.antt =====
-- The fade of the wallpaper of kernel/axshell.c comes to its end.
use artyom_x.Base.{
  ℕ, zero, suc, ◌+◌, ◌*◌, ◌≤◌, ◌<◌, ◌≡◌, ◌≢◌, ◌⊎◌, inl, inr, refl, sym, ◌∙◌, true, false, leb, ◌==◌,
  elim_if, arith,
}
use artyom_x.Axshell.Backdrop.{
  Backdrop, fade_done, fade_on, fade_step, slide_step, wallpaper_tick, ticks,
}

-- A fade that runs has not reached its end, and one that does not run is there.
abbrev pub IsFade : Backdrop → Type 0
IsFade b =
    ((b.wallpaper_fade_dir ≡ 1) × (b.wallpaper_fade < 256))
    ⊎ ((b.wallpaper_fade_dir ≡ 0) × (b.wallpaper_fade ≡ 256))

slide_step-still : (b : Backdrop) → b.wallpaper_mode ≢ 2 → slide_step b ≡ b
unfolding slide_step
slide_step-still b still =
    let other : (b.wallpaper_mode == 2) ≡ false = ground (arith, still) in rw other refl

-- One step: what is left of the fade shrinks by 16.
data Steps (b : Backdrop) : Backdrop → Type 0 where
  rests : b.wallpaper_fade_dir ≡ 0 → Steps b b
  ends : Steps b (fade_done b)
  runs : b.wallpaper_fade_dir ≡ 1 → b.wallpaper_fade + 16 < 256 → Steps b (fade_on b)

fade_step-Steps : (b : Backdrop) → IsFade b → Steps b (fade_step b)
unfolding fade_step
fade_step-Steps b (inr (stopped, full)) =
    let off : (b.wallpaper_fade_dir == 1) ≡ false = ground (arith, stopped) in
    rw off (rests stopped)
fade_step-Steps b (inl (running, below)) =
    let on : (b.wallpaper_fade_dir == 1) ≡ true = ground (arith, running) in
    rw on (
      elim_if (Steps b) (leb 256 (b.wallpaper_fade + 16)) (λ e. ends)
        (λ e. runs running (ground (arith, e))))

-- What a step keeps and how much it leaves.
progress :
    (n : ℕ) {b c : Backdrop}
    → IsFade b
    → Steps b c
    → IsFade c
      × (c.wallpaper_mode ≡ b.wallpaper_mode)
      × (256 ≤ b.wallpaper_fade + 16 * suc n → 256 ≤ c.wallpaper_fade + 16 * n)
progress n f (rests stopped) = (
  f,
  refl,
  λ h. elim f [ inl r ↦ absurd (omega (arith, r.0, stopped)) | inr r ↦ omega (arith, r.1) ],
)
progress n f ends = (inr (refl, refl), refl, λ h. omega arith)
progress n f (runs running below) = (inl (running, below), refl, λ h. omega (arith, h))

wallpaper_tick-still :
    (b : Backdrop) → IsFade b → b.wallpaper_mode ≢ 2 → wallpaper_tick b ≡ fade_step b
unfolding wallpaper_tick
wallpaper_tick-still b fade still =
    slide_step-still (fade_step b)
      (λ e. still (sym (progress 0 fade (fade_step-Steps b fade)).1 ∙ e))

-- With no slideshow, a fade that has at most `n` steps left is over after `n` ticks and stays so: it does
-- not run and stands at its end.
pub ticks-settled :
    (n : ℕ) (b : Backdrop)
    → b.wallpaper_mode ≢ 2
    → IsFade b
    → 256 ≤ b.wallpaper_fade + 16 * n
    → ((ticks n b).wallpaper_fade_dir ≡ 0) × ((ticks n b).wallpaper_fade ≡ 256)
unfolding ticks
ticks-settled zero b still (inl (running, below)) h = absurd (omega arith)
ticks-settled zero b still (inr over) h = over
ticks-settled (suc n) b still fade h =
    let p = progress n fade (fade_step-Steps b fade) in
    let still' : (fade_step b).wallpaper_mode ≢ 2 = λ e. still (sym p.1 ∙ e) in
    rw (ticks, wallpaper_tick-still b fade still) (ticks-settled n (fade_step b) still' p.0 (p.2 h))
