-- ===== src/Calendar/Laws.antt =====
-- The day numbers of years and months.
use mytrackr_backend.Prelude.{
  ℕ, zero, suc, ◌+◌, ◌-◌, ◌*◌, ◌/◌, ◌%◌, ◌≤◌, ◌<◌, ◌≡◌, Bool, arith, if◌then◌else◌, refl, ◌∙◌,
}
use mytrackr_backend.Calendar.{
  is_leap, day_from_year, month_start, year_from, year_of, month_from, month_of, day_in_year,
  date_of, make_day,
}

pub day_from_year-suc :
    (y : ℕ)
    → 1970 ≤ y
    → day_from_year (y + 1) ≡ day_from_year y + 365 + (if is_leap y then 1 else 0)
unfolding day_from_year is_leap
day_from_year-suc y h = ground arith

pub month_gap :
    (leap : Bool) (m : ℕ)
    → m < 11
    → (month_start leap m + 28 ≤ month_start leap (m + 1))
      × (month_start leap (m + 1) ≤ month_start leap m + 31)
unfolding month_start
month_gap leap m h = ground arith

year_from_bounds :
    (fuel y d : ℕ)
    → 1970 ≤ y
    → day_from_year y ≤ d
    → d < day_from_year y + 365 * fuel
    → (1970 ≤ year_from fuel y d)
      × (day_from_year (year_from fuel y d) ≤ d)
      × (d < day_from_year (year_from fuel y d + 1))
unfolding year_from
year_from_bounds zero y d h k l = absurd (omega arith)
year_from_bounds (suc fuel) y d h k l =
    ground (arith, year_from_bounds fuel (y + 1) d, day_from_year-suc y h)

-- The year found for a day is the one in which the day lies.
pub year_of_bounds :
    (d : ℕ)
    → (1970 ≤ year_of d) × (day_from_year (year_of d) ≤ d) × (d < day_from_year (year_of d + 1))
unfolding year_of
year_of_bounds d = year_from_bounds (d / 365 + 1) 1970 d (omega arith) (omega arith) (omega arith)

pub month_start-zero : (leap : Bool) → month_start leap 0 ≡ 0
unfolding month_start
month_start-zero leap = ground arith

month_from_bounds :
    (m : ℕ) (leap : Bool) (d : ℕ)
    → (month_from m leap d ≤ m) × (month_start leap (month_from m leap d) ≤ d)
unfolding month_from
month_from_bounds zero leap d = rw month_start-zero (omega arith)
month_from_bounds (suc m) leap d = ground (arith, month_from_bounds m leap d)

pub month_of_bounds :
    (d : ℕ) → (month_of d ≤ 11) × (month_start (is_leap (year_of d)) (month_of d) ≤ day_in_year d)
unfolding month_of
month_of_bounds d = month_from_bounds 11 (is_leap (year_of d)) (day_in_year d)

-- The parts of a day add up to the day.
pub day_of_parts :
    (d : ℕ)
    → day_from_year (year_of d) + month_start (is_leap (year_of d)) (month_of d) + (date_of d - 1)
      ≡ d
unfolding date_of
day_of_parts d = omega (arith, year_of_bounds d, month_of_bounds d)

-- A month that is not past December needs no carry.
make_day_within :
    (y m d : ℕ) → m ≤ 11 → make_day y m d ≡ day_from_year y + month_start (is_leap y) m + (d - 1)
unfolding make_day
make_day_within y m d h =
    let year : y + m / 12 ≡ y = omega arith in
    let month : m % 12 ≡ m = omega arith in rw (year, month) refl

-- The year, the month and the date found for a day make the day again.
pub make_day_of_parts : (d : ℕ) → make_day (year_of d) (month_of d) (date_of d) ≡ d
make_day_of_parts d =
    make_day_within (year_of d) (month_of d) (date_of d) (month_of_bounds d).0 ∙ day_of_parts d

y2026 : (year_of 20782 ≡ 2026) × (month_of 20782 ≡ 10) × (date_of 20782 ≡ 25)
unfolding date_of
y2026 = (refl, refl, refl)
