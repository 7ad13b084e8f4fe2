-- ===== src/Axshell/Calendar.antt =====
-- The calendar of the desktop in kernel/axshell.c.
use artyom_x.Base.{
  ℕ, ◌+◌, ◌-◌, ◌/◌, ◌%◌, ◌≤◌, ◌<◌, ◌≡◌, inl, inr, refl, ◌&&◌, ◌||◌, Bool, true, false, not, List,
  [], ◌∷◌, ltb, leb, ◌==◌, if◌then◌else◌, get_or, arith, Bool-cases, passes, passes→test, ◌≢◌,
  ℕ_discrete,
}

abbrev pub month_lengths : List ℕ
month_lengths = 0 ∷ 31 ∷ 28 ∷ 31 ∷ 30 ∷ 31 ∷ 30 ∷ 31 ∷ 31 ∷ 30 ∷ 31 ∷ 30 ∷ 31 ∷ []

abbrev pub month_shifts : List ℕ
month_shifts = 0 ∷ 3 ∷ 2 ∷ 5 ∷ 0 ∷ 3 ∷ 5 ∷ 1 ∷ 4 ∷ 6 ∷ 2 ∷ 4 ∷ []

abbrev pub is_leap : ℕ → Bool
is_leap y = ((y % 4 == 0) && not (y % 100 == 0)) || (y % 400 == 0)

unfoldable pub days_in_month : ℕ → ℕ → ℕ
days_in_month m y =
    if (m == 2) && is_leap y
    then 29
    else if leb 1 m && leb m 12
    then get_or month_lengths m 0
    else 30

-- Sunday is 0; the year is above 0 and small enough for an `int`.
unfoldable pub day_of_week : ℕ → ℕ → ℕ → ℕ
day_of_week d m y0 =
    let y = if ltb m 3 then y0 - 1 else y0 in
    (y + y / 4 - y / 100 + y / 400 + get_or month_shifts (m - 1) 0 + d) % 7

-- The day behind a day, month and year.
unfoldable pub next_day : ℕ → ℕ → ℕ → ℕ × ℕ × ℕ
next_day d m y =
    if ltb d (days_in_month m y)
    then (d + 1, m, y)
    else if m == 12
    then (1, 1, y + 1)
    else (1, m + 1, y)

abbrev sum : ℕ → ℕ
sum y = y + y / 4 - y / 100 + y / 400

-- What a turn of the year adds.
sum-leap : (y : ℕ) → 1 ≤ y → is_leap y ≡ true → sum y ≡ sum (y - 1) + 2
sum-leap y pos leap = ground (arith, pos, leap)

sum-common : (y : ℕ) → 1 ≤ y → is_leap y ≡ false → sum y ≡ sum (y - 1) + 1
sum-common y pos common = ground (arith, pos, common)

-- A month's shift is that of the month before, and its length.
abbrev is_shifted : ℕ → Bool
is_shifted m =
    (m == 0)
    || ((m == 2)
        || ((get_or month_shifts (m - 1) 0 + get_or month_lengths m 0) % 7
            == get_or month_shifts m 0))

shift_next :
    (m : ℕ)
    → 1 ≤ m
    → m < 12
    → m ≢ 2
    → (get_or month_shifts (m - 1) 0 + get_or month_lengths m 0) % 7 ≡ get_or month_shifts m 0
unfolding passes
shift_next m a b c = ground (arith, passes→test is_shifted 12 m b refl)

carry : (year s l s' : ℕ) → (s + l) % 7 ≡ s' → (year + s' + 1) % 7 ≡ ((year + s + l) % 7 + 1) % 7
carry year s l s' e = omega (arith, e)

-- The year that counts.
abbrev year_of : ℕ → ℕ → ℕ
year_of m y = if ltb m 3 then y - 1 else y

same_year : (m y : ℕ) → 1 ≤ m → m ≢ 2 → year_of (m + 1) y ≡ year_of m y
same_year m y a b = ground (arith, a, b)

month_end :
    (m y : ℕ)
    → 1 ≤ m
    → m < 12
    → m ≢ 2
    → day_of_week 1 (m + 1) y ≡ (day_of_week (get_or month_lengths m 0) m y + 1) % 7
unfolding day_of_week
month_end m y a b c =
    let next : m + 1 - 1 ≡ m = omega arith in
    rw (same_year m y a c, next)
      (carry (sum (year_of m y)) (get_or month_shifts (m - 1) 0) (get_or month_lengths m 0)
        (get_or month_shifts m 0) (shift_next m a b c))

february_end :
    (y : ℕ) → 1 ≤ y → day_of_week 1 3 y ≡ (day_of_week (if is_leap y then 29 else 28) 2 y + 1) % 7
unfolding day_of_week
february_end y e = elim (Bool-cases (is_leap y)) [
  | inl leap ↦ rw leap (omega (arith, sum-leap y e leap))
  | inr common ↦ rw common (omega (arith, sum-common y e common))
]

days_in_february : (y : ℕ) → days_in_month 2 y ≡ (if is_leap y then 29 else 28)
unfolding days_in_month
days_in_february y = ground arith

days_in_other : (m y : ℕ) → 1 ≤ m → m ≤ 12 → m ≢ 2 → days_in_month m y ≡ get_or month_lengths m 0
unfolding days_in_month
days_in_other m y a b c =
    let other : (m == 2) ≡ false = ground (arith, c) in
    let low : leb 1 m ≡ true = ground arith in
    let high : leb m 12 ≡ true = ground arith in rw (other, low, high)

next_in_month : (a b d : ℕ) → (a + b + (d + 1)) % 7 ≡ ((a + b + d) % 7 + 1) % 7
next_in_month a b d = omega arith

day_of_week-inside : (d m y : ℕ) → day_of_week (d + 1) m y ≡ (day_of_week d m y + 1) % 7
unfolding day_of_week
day_of_week-inside d m y = next_in_month (sum (year_of m y)) (get_or month_shifts (m - 1) 0) d

new_year : (y : ℕ) → day_of_week 1 1 (y + 1) ≡ (day_of_week 31 12 y + 1) % 7
unfolding day_of_week
new_year y = let same : y + 1 - 1 ≡ y = omega arith in rw same (omega arith)

-- The day of the week of the next day is the next one, for every date of the calendar from the year 1 on,
-- over the ends of months and years and in leap years.
pub day_of_week-next_day :
    (d m y : ℕ)
    → 1 ≤ m
    → m ≤ 12
    → 1 ≤ d
    → d ≤ days_in_month m y
    → 1 ≤ y
    → let (d', m', y') = next_day d m y in day_of_week d' m' y' ≡ (day_of_week d m y + 1) % 7
unfolding next_day
day_of_week-next_day d m y a b c e f = elim (Bool-cases (ltb d (days_in_month m y))) [
  | inl inside ↦ rw inside (day_of_week-inside d m y)
  | inr last ↦
      let end : d ≡ days_in_month m y = ground (arith, last, e) in
      rw last (elim (ℕ_discrete m 12) [
        | yes december ↦
            rw (end, december, days_in_other 12 y (omega arith) (omega arith) (omega arith))
              (new_year y)
        | no early ↦
            let not_last : (m == 12) ≡ false = ground (arith, early) in
            rw not_last (elim (ℕ_discrete m 2) [
              | yes february ↦ rw (end, february, days_in_february y) (february_end y f)
              | no other ↦
                  rw (end, days_in_other m y a b other)
                    (month_end m y a (omega (arith, early, b)) other)
            ])
      ])
]
