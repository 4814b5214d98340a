-- ===== src/Calendar/Periods.antt =====
-- How long the periods are that the setters of `Date` add.
use mytrackr_backend.Prelude.{ℕ, ◌+◌, ◌-◌, ◌*◌, ◌/◌, ◌%◌, ◌≤◌, ◌<◌, ◌≡◌, arith, refl}
use native.Mathlib.Decide.{dec_lt}
use mytrackr_backend.Calendar.{
  is_leap, day_from_year, month_start, year_of, month_of, date_of, make_day, add_year, add_month,
  add_days, day, year_later, month_later, days_later, ms_per_day, calendar,
}
use mytrackr_backend.Calendar.Laws.{
  day_from_year-suc, month_gap, month_start-zero, year_of_bounds, month_of_bounds, day_of_parts,
}

date_of_pos : (d : ℕ) → 1 ≤ date_of d
unfolding date_of
date_of_pos d = omega arith

-- make_day at a month of the same year, and at the January after it
make_day_this_year :
    (y m d : ℕ) → m < 12 → make_day y m d ≡ day_from_year y + month_start (is_leap y) m + (d - 1)
unfolding make_day
make_day_this_year y m d h =
    let e : y + m / 12 ≡ y = omega arith in let f : m % 12 ≡ m = omega arith in rw (e, f)

make_day_next_year : (y m d : ℕ) → m ≡ 11 → make_day y (m + 1) d ≡ day_from_year (y + 1) + (d - 1)
unfolding make_day
make_day_next_year y m d h = rw h (omega (arith, month_start-zero (is_leap (y + 1))))

december :
    (y m : ℕ)
    → 1970 ≤ y
    → m ≡ 11
    → day_from_year y + month_start (is_leap y) m + 31 ≡ day_from_year (y + 1)
unfolding month_start
december y m h e = ground (arith, day_from_year-suc y h)

year_gap :
    (y m : ℕ)
    → 1970 ≤ y
    → m < 12
    → (day_from_year y + month_start (is_leap y) m + 365
        ≤ day_from_year (y + 1) + month_start (is_leap (y + 1)) m)
      × (day_from_year (y + 1) + month_start (is_leap (y + 1)) m
          ≤ day_from_year y + month_start (is_leap y) m + 366)
unfolding month_start is_leap
year_gap y m h k = ground (arith, day_from_year-suc y h)

year_later_bounds : (d : ℕ) → (d + 365 ≤ year_later d) × (year_later d ≤ d + 366)
unfolding year_later
year_later_bounds d =
    let (y, _, _) = year_of_bounds d in
    let (m, _) = month_of_bounds d in
    omega (
      arith,
      make_day_this_year (year_of d + 1) (month_of d) (date_of d) (omega arith),
      year_gap (year_of d) (month_of d) y (omega arith),
      day_of_parts d,
      date_of_pos d,
    )

month_later_bounds : (d : ℕ) → (d + 28 ≤ month_later d) × (month_later d ≤ d + 31)
unfolding month_later
month_later_bounds d =
    let (y, _, _) = year_of_bounds d in
    let (m, _) = month_of_bounds d in
    elim (dec_lt (month_of d) 11) [
      | yes early ↦ omega (
        arith,
        make_day_this_year (year_of d) (month_of d + 1) (date_of d) (omega arith),
        month_gap (is_leap (year_of d)) (month_of d) early,
        day_of_parts d,
        date_of_pos d,
      )
      | no late ↦ omega (
        arith,
        make_day_next_year (year_of d) (month_of d) (date_of d) (omega arith),
        december (year_of d) (month_of d) y (omega arith),
        day_of_parts d,
        date_of_pos d,
      )
    ]

days_later_lem : (n d : ℕ) → days_later n d ≡ d + n
unfolding days_later
days_later_lem n d = omega (
  arith,
  make_day_this_year (year_of d) (month_of d) (date_of d + n),
  month_of_bounds d,
  day_of_parts d,
  date_of_pos d,
)

-- A year is 365 or 366 days, at the same time of day.
pub add_year_bounds :
    (t : ℕ) → (t + 365 * ms_per_day ≤ add_year t) × (add_year t ≤ t + 366 * ms_per_day)
unfolding add_year
add_year_bounds t = omega (arith, year_later_bounds (day t))

-- A calendar month is 28 to 31 days, at the same time of day.
pub add_month_bounds :
    (t : ℕ) → (t + 28 * ms_per_day ≤ add_month t) × (add_month t ≤ t + 31 * ms_per_day)
unfolding add_month
add_month_bounds t = omega (arith, month_later_bounds (day t))

-- Adding days is exact.
pub add_days_lem : (n t : ℕ) → add_days n t ≡ t + n * ms_per_day
unfolding add_days
add_days_lem n t = omega (arith, days_later_lem n (day t))

feb : (add_month 1769817600000 ≡ 1772496000000)
unfolding calendar
feb = refl
