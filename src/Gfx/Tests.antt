-- ===== src/Gfx/Tests.antt =====
-- Drawing with lib/gfxlib.c on a screen of four by three pixels.
use artyom_x.Base.{ℕ, ◌-◌, ◌/◌, ◌%◌, ◌^◌, ◌≡◌, ◌&&◌, refl, List, [], ◌∷◌, arith, ltb, if◌then◌else◌}
use artyom_x.Gfx.{Gfx, clip, update_rect, update_rows, update_row, gfx_fill_rect}
use artyom_x.Gfx.Clip.{covers}
use artyom_x.Gfx.Fill.{IsScreen, IsRange, gfx_fill_rect_fills}
use artyom_x.Gfx.Stays.{Stays}
use artyom_x.Gfx.Draws.{Draw, fill, circle, text, draws, draws-Stays}

abbrev small : Gfx
small = record { backbuffer = λ k. k; blurtmp = λ k. 0; fb_w = 4; fb_h = 3 }

small-IsScreen : IsScreen small
small-IsScreen = record {
  some_width = omega arith;
  width = omega arith;
  some_height = omega arith;
  height = omega arith;
}

-- The columns from -1 to 1, and the rows 1 and 2.
columns : IsRange (2 ^ 32 - 1) 3
columns = record {
  is_word = omega arith;
  is_size = omega arith;
  reaches = omega arith;
  no_overflow = omega arith;
}

lines : IsRange 1 2
lines = record {
  is_word = omega arith;
  is_size = omega arith;
  reaches = omega arith;
  no_overflow = omega arith;
}

run_fill : ℕ → ℕ → ℕ → ℕ → ℕ → Gfx → Gfx
unfolding gfx_fill_rect update_rect update_rows update_row clip
run_fill x y w h color g = gfx_fill_rect x y w h color g

-- A part of a row is filled, and of a rectangle left of the screen all of it.
fill_runs :
    ((run_fill (2 ^ 32 - 1) 1 3 2 99 small).backbuffer 5 ≡ 99)
    × ((run_fill (2 ^ 32 - 1) 1 3 2 99 small).backbuffer 6 ≡ 6)
    × ((run_fill (2 ^ 32 - 3) 1 2 2 99 small).backbuffer 7 ≡ 99)
unfolding run_fill
fill_runs = (refl, refl, refl)

gfx_fill_rect_fills_example :
    (gfx_fill_rect (2 ^ 32 - 1) 1 3 2 99 small).backbuffer 5
    ≡ (if covers (2 ^ 32 - 1) 3 (5 % 4) && (ltb (5 / 4) 3 && covers 1 2 (5 / 4)) then 99 else 5)
gfx_fill_rect_fills_example =
    gfx_fill_rect_fills (2 ^ 32 - 1) 1 3 2 99 5 small-IsScreen columns lines

no_font : ℕ → ℕ → ℕ
no_font c cy = 255

abbrev picture : List Draw
picture = fill 2 2 100 100 5 ∷ (circle 0 0 3 7 ∷ (text (65 ∷ []) 3 1 9 ∷ []))

draws-Stays_example : Stays small (draws no_font picture small)
draws-Stays_example = draws-Stays no_font picture small-IsScreen
