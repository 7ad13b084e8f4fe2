-- ===== src/Monitor/Scroll.antt =====
-- `scroll` of drivers/monitor.c: the loops over the video memory as the copies of the C library.
use artyom_x.Base.{
  ℕ, zero, suc, ◌+◌, ◌-◌, ◌≡◌, ◌∙◌, inl, inr, refl, ap, true, false, ltb, if◌then◌else◌, arith,
  Bool-cases,
}
use artyom_x.Libc.{Memory, store, memcpy, memset}
use artyom_x.Libc.Copy.{Moved, memcpy-Moved, within, memset-sets}
use artyom_x.Monitor.{lines_up, blank_cells, blank}

lines_up-memcpy : (n i : ℕ) (vm : Memory) → lines_up n i vm ≡ memcpy i (i + 80) n vm
unfolding lines_up memcpy
lines_up-memcpy zero i vm = refl
lines_up-memcpy (suc n) i vm =
    let e : i + 1 + 80 ≡ i + 80 + 1 = omega arith in
    lines_up-memcpy n (i + 1) _ ∙ ap (λ k. memcpy (i + 1) k n (store vm i (vm (i + 80)))) e

blank_cells-memset : (n i : ℕ) (vm : Memory) → blank_cells n i vm ≡ memset i blank n vm
unfolding blank_cells memset
blank_cells-memset zero i vm = refl
blank_cells-memset (suc n) i vm = blank_cells-memset n (i + 1) _

pub blank_cells-at :
    (n i : ℕ) (vm : Memory) (j : ℕ) → blank_cells n i vm j ≡ (if within i n j then blank else vm j)
blank_cells-at n i vm j = rw (blank_cells-memset n i vm) (memset-sets i blank n vm j)

-- A cell of the screen after all lines have moved up by one.
abbrev pub moved_up : Memory → ℕ → ℕ
moved_up vm j = if ltb j 1920 then vm (j + 80) else if ltb j 2000 then blank else vm j

copied : (vm : Memory) (j : ℕ) → lines_up 1920 0 vm j ≡ (if ltb j 1920 then vm (j + 80) else vm j)
unfolding Moved
copied vm j =
    let e : 80 + (j - 0) ≡ j + 80 = omega arith in
    let w : within 0 1920 j ≡ ltb j 1920 = ground arith in
    rw (lines_up-memcpy 1920 0 vm, memcpy-Moved 0 80 1920 vm (inl (omega arith)) j, w, e) refl

pub scroll-moved_up :
    (vm : Memory) (j : ℕ) → blank_cells 80 1920 (lines_up 1920 0 vm) j ≡ moved_up vm j
scroll-moved_up vm j =
    rw (blank_cells-at 80 1920 (lines_up 1920 0 vm) j, copied vm j)
      (elim (Bool-cases (ltb j 1920)) [
        | inl low ↦ let w : within 1920 80 j ≡ false = ground arith in rw (w, low) refl
        | inr high ↦ elim (Bool-cases (ltb j 2000)) [
          | inl last ↦ let w : within 1920 80 j ≡ true = ground arith in rw (w, high, last) refl
          | inr out ↦ let w : within 1920 80 j ≡ false = ground arith in rw (w, high, out) refl
        ]
      ])
