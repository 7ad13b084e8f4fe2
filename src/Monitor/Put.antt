-- ===== src/Monitor/Put.antt =====
-- `monitor_put` of drivers/monitor.c: where a character goes, and that nothing outside the screen is
-- written.
use artyom_x.Base.{
  ℕ, ◌+◌, ◌-◌, ◌*◌, ◌/◌, ◌%◌, ◌<◌, ◌≡◌, ◌∙◌, inl, inr, refl, ap, Bool, true, false, leb, ltb, ◌==◌,
  if◌then◌else◌, arith, ◌&&◌, ◌||◌, Bool-cases, List, [], ◌∷◌, bit_or, ℕ_discrete,
}
use artyom_x.Libc.{Memory, store}
use artyom_x.Libc.Copy.{within}
use artyom_x.Monitor.{
  Console, attribute, blank, blank_cells, scroll, put_char, wrap_line, move_cursor, monitor_put,
  monitor_clear, monitor_write,
}
use artyom_x.Monitor.Scroll.{moved_up, scroll-moved_up, blank_cells-at}

-- The cursor is on the screen.
pub record IsConsole (s : Console) : Type 0 where
  pub column : s.cursor_x < 80
  pub line : s.cursor_y < 25

abbrev pub is_printable : ℕ → Bool
is_printable c = leb 32 c && ltb c 128

-- Does the cursor leave its line downwards?
abbrev pub ends_line : ℕ → ℕ → Bool
ends_line c x = (c == 10) || (((c == 9) && leb 72 x) || (is_printable c && (x == 79)))

-- The column behind `c`, for a column of the screen.
abbrev pub next_column : ℕ → ℕ → ℕ
next_column c x =
    if ends_line c x
    then 0
    else if c == 8
    then x - 1
    else if c == 9
    then (x / 8 + 1) * 8
    else if c == 13
    then 0
    else if is_printable c
    then x + 1
    else x

-- The memory with `c` at the cursor, if it is printable.
abbrev pub written : ℕ → Console → Memory
written c s =
    if is_printable c then store s.vm (s.cursor_y * 80 + s.cursor_x) (bit_or c attribute) else s.vm

-- A terminal: the character goes to the cursor, the cursor moves on, and below the last line the screen
-- moves up.
pub record Puts (c : ℕ) (s t : Console) : Type 0 where
  pub column : t.cursor_x ≡ next_column c s.cursor_x
  pub line : t.cursor_y ≡ (
      if ends_line c s.cursor_x
      then if s.cursor_y == 24 then 24 else s.cursor_y + 1
      else s.cursor_y)
  pub cells :
      (j : ℕ)
      → t.vm j ≡ (
          if ends_line c s.cursor_x && (s.cursor_y == 24)
          then moved_up (written c s) j
          else written c s j)
  pub sent : t.hardware ≡ t.cursor_y * 80 + t.cursor_x

-- What the first two steps make of the cursor and the memory.
record Placed (c : ℕ) (s t : Console) : Type 0 where
  column : t.cursor_x ≡ next_column c s.cursor_x
  line : t.cursor_y ≡ (if ends_line c s.cursor_x then s.cursor_y + 1 else s.cursor_y)
  memory : t.vm ≡ written c s

module _ {s : Console} (v : IsConsole s) where
  inside : leb 80 s.cursor_x ≡ false
  inside = ground (arith, v.column)

  -- A backspace, a tab, a carriage return and a newline.
  backspace : Placed 8 s (wrap_line (put_char 8 s))
  unfolding wrap_line put_char
  backspace = elim (Bool-cases (s.cursor_x == 0)) [
    | inl z ↦ rw (z, inside) (record { column = ground arith; line = refl; memory = refl })
    | inr nz ↦
        let fits : leb 80 (s.cursor_x - 1) ≡ false = ground (arith, v.column) in
        rw (nz, fits) (record { column = refl; line = refl; memory = refl })
  ]

  tab : Placed 9 s (wrap_line (put_char 9 s))
  unfolding wrap_line put_char
  tab = elim (Bool-cases (leb 72 s.cursor_x)) [
    | inl far ↦
        let down : leb 80 (((s.cursor_x + 8) / 8 * 8) % 256) ≡ true = ground (arith, v.column) in
        rw down
          (record { column = rw far refl; line = rw far (omega (arith, v.line)); memory = refl })
    | inr near ↦
        let stays : leb 80 (((s.cursor_x + 8) / 8 * 8) % 256) ≡ false = ground (arith, v.column) in
        rw stays (record {
          column = rw near (omega (arith, v.column));
          line = rw near refl;
          memory = refl;
        })
  ]

  carriage_return : Placed 13 s (wrap_line (put_char 13 s))
  unfolding wrap_line put_char
  carriage_return = record { column = refl; line = refl; memory = refl }

  newline : Placed 10 s (wrap_line (put_char 10 s))
  unfolding wrap_line put_char
  newline = record { column = refl; line = omega (arith, v.line); memory = refl }

  module _ (c : ℕ) (n8 : (c == 8) ≡ false) (n9 : (c == 9) ≡ false) (n13 : (c == 13) ≡ false)
      (n10 : (c == 10) ≡ false) where
    printable : is_printable c ≡ true → Placed c s (wrap_line (put_char c s))
    unfolding wrap_line put_char
    printable p = elim (Bool-cases (s.cursor_x == 79)) [
      | inl last ↦
          let down : leb 80 ((s.cursor_x + 1) % 256) ≡ true = ground arith in
          rw (n8, n9, n13, n10, p, down)
            (record {
              column = rw (n10, n9, p, last) refl;
              line = rw (n10, n9, p, last) (omega (arith, v.line));
              memory = rw p refl;
            })
      | inr more ↦
          let stays : leb 80 ((s.cursor_x + 1) % 256) ≡ false = ground (arith, v.column) in
          rw (n8, n9, n13, n10, p, stays)
            (record {
              column = rw (n8, n9, n13, n10, p, more) (omega (arith, v.column));
              line = rw (n10, n9, p, more) refl;
              memory = rw p refl;
            })
    ]

    ignored : is_printable c ≡ false → Placed c s (wrap_line (put_char c s))
    unfolding wrap_line put_char
    ignored p =
        rw (n8, n9, n13, n10, p, inside)
          (record {
            column = rw (n8, n9, n13, n10, p) refl;
            line = rw (n10, n9, p) refl;
            memory = rw p refl;
          })

  wrap_line-Placed : (c : ℕ) → Placed c s (wrap_line (put_char c s))
  wrap_line-Placed c = elim (ℕ_discrete c 8) [
    | yes e ↦ rw e backspace
    | no n8 ↦ elim (ℕ_discrete c 9) [
      | yes e ↦ rw e tab
      | no n9 ↦ elim (ℕ_discrete c 13) [
        | yes e ↦ rw e carriage_return
        | no n13 ↦ elim (ℕ_discrete c 10) [
          | yes e ↦ rw e newline
          | no n10 ↦
              let q8 : (c == 8) ≡ false = ground arith in
              let q9 : (c == 9) ≡ false = ground arith in
              let q13 : (c == 13) ≡ false = ground arith in
              let q10 : (c == 10) ≡ false = ground arith in
              elim (Bool-cases (is_printable c)) [
                | inl p ↦ printable c q8 q9 q13 q10 p
                | inr p ↦ ignored c q8 q9 q13 q10 p
              ]
        ]
      ]
    ]
  ]

next_column_fits : (c x : ℕ) → x < 80 → next_column c x < 80
next_column_fits c x h = elim (Bool-cases (ends_line c x)) [
  | inl e ↦ rw e (omega arith)
  | inr stays ↦ rw stays (elim (Bool-cases (c == 8)) [
    | inl e ↦ rw e (omega (arith, h))
    | inr n8 ↦ rw n8 (elim (Bool-cases (c == 9)) [
      | inl e ↦ rw e (tab_fits (rw e at stays))
      | inr n9 ↦ rw n9 (elim (Bool-cases (c == 13)) [
        | inl e ↦ rw e (omega arith)
        | inr n13 ↦ rw n13 (elim (Bool-cases (is_printable c)) [
          | inl p ↦ rw p (print_fits (rw (n9, p) at stays))
          | inr p ↦ rw p h
        ])
      ])
    ])
  ])
]
  where
    tab_fits :
        ((c == 10) || (leb 72 x || (is_printable c && (x == 79)))) ≡ false → (x / 8 + 1) * 8 < 80
    tab_fits e = ground (arith, h)

    print_fits : ((c == 10) || (x == 79)) ≡ false → x + 1 < 80
    print_fits e = ground (arith, h)

module _ {c : ℕ} {s : Console} (v : IsConsole s) where
  -- The rest of `monitor_put`, on a line that the screen has or below the last one.
  finished :
      {t : Console}
      → Placed c s t
      → Puts c s (move_cursor (scroll t)) × IsConsole (move_cursor (scroll t))
  unfolding scroll move_cursor
  finished {t} w =
      let fits : t.cursor_x < 80 =
        omega (arith, w.column, next_column_fits c s.cursor_x v.column) in
      elim (Bool-cases (ends_line c s.cursor_x)) [
        | inr stays ↦
            let y : t.cursor_y ≡ s.cursor_y = w.line ∙ rw stays refl in
            let up : leb 25 t.cursor_y ≡ false = ground (arith, y, v.line) in
            rw up (
              record {
                column = w.column;
                line = w.line ∙ rw stays refl;
                cells = λ j. rw stays (ap (λ m. m j) w.memory);
                sent = omega (arith, fits, y, v.line);
              },
              record { column = fits; line = omega (arith, y, v.line) },
            )
        | inl leaves ↦ elim (Bool-cases (s.cursor_y == 24)) [
          | inl last ↦
              let y : t.cursor_y ≡ s.cursor_y + 1 = w.line ∙ rw leaves refl in
              let down : leb 25 t.cursor_y ≡ true = ground (arith, y) in
              rw down (
                record {
                  column = w.column;
                  line = rw (leaves, last) refl;
                  cells = λ j.
                      rw (leaves, last) (scroll-moved_up t.vm j ∙ ap (λ m. moved_up m j) w.memory);
                  sent = omega (arith, fits);
                },
                record { column = fits; line = omega arith },
              )
          | inr above ↦
              let y : t.cursor_y ≡ s.cursor_y + 1 = w.line ∙ rw leaves refl in
              let up : leb 25 t.cursor_y ≡ false = ground (arith, y, v.line) in
              let less : s.cursor_y + 1 < 25 = ground (arith, v.line) in
              rw up (
                record {
                  column = w.column;
                  line = rw (leaves, above) y;
                  cells = λ j. rw (leaves, above) (ap (λ m. m j) w.memory);
                  sent = omega (arith, fits, y, less);
                },
                record { column = fits; line = omega (arith, y, less) },
              )
        ]
      ]

-- `monitor_put` with the cursor on the screen behaves as a terminal: the character goes to the
-- cursor, which moves on and stays on the screen, below the last line the screen moves up by one,
-- and no cell outside the screen is written.
pub monitor_put-Puts :
    (c : ℕ) {s : Console} → IsConsole s → Puts c s (monitor_put c s) × IsConsole (monitor_put c s)
unfolding monitor_put
monitor_put-Puts c v = finished v (wrap_line-Placed v c)

-- `monitor_clear` blanks the screen and nothing else, and leaves the cursor at its start.
pub monitor_clear-blanks :
    (s : Console)
    → IsConsole (monitor_clear s)
      × ((j : ℕ) → (monitor_clear s).vm j ≡ (if ltb j 2000 then blank else s.vm j))
unfolding monitor_clear move_cursor
monitor_clear-blanks s = (record { column = omega arith; line = omega arith }, cells)
  where
    cells : (j : ℕ) → blank_cells 2000 0 s.vm j ≡ (if ltb j 2000 then blank else s.vm j)
    cells j =
        let w : within 0 2000 j ≡ ltb j 2000 = ground arith in
        rw (blank_cells-at 2000 0 s.vm j, w) refl

pub monitor_write-IsConsole :
    (cs : List ℕ) {s : Console} → IsConsole s → IsConsole (monitor_write cs s)
unfolding monitor_write
monitor_write-IsConsole [] v = v
monitor_write-IsConsole (c ∷ cs) v = elim (Bool-cases (c == 0)) [
  | inl z ↦ rw z v
  | inr nz ↦ rw nz (monitor_write-IsConsole cs (monitor_put-Puts c v).1)
]
