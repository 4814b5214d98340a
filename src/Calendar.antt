-- ===== src/Calendar.antt =====
-- The `Date` arithmetic that src/payments/services/subscription.service.ts uses (`setFullYear`,
-- `setMonth`, `setDate`, `getMonth` and so on), by the day numbers of the ECMAScript standard.
-- An instant is its time value, milliseconds since 1970; the process runs in UTC.
pub mod Laws
pub mod Periods
mod Tests
use mytrackr_backend.Prelude.{
  ℕ, zero, suc, ◌+◌, ◌-◌, ◌*◌, ◌/◌, ◌%◌, Bool, true, false, ◌&&◌, ◌||◌, not, ltb, leb, ◌==◌,
  if◌then◌else◌,
}

-- MS_PER_DAY
abbrev pub ms_per_day : ℕ
ms_per_day = 86400000

pub is_leap : ℕ → Bool
is_leap y = (y % 4 == 0 && not (y % 100 == 0)) || (y % 400 == 0)

-- DayFromYear(y), for a year from 1970 on
pub day_from_year : ℕ → ℕ
day_from_year y = 365 * (y - 1970) + (y - 1969) / 4 + (y - 1601) / 400 - (y - 1901) / 100

-- The day within the year on which month `m` begins; months count from 0.
pub common_month_start : ℕ → ℕ
common_month_start m =
    if m == 0
    then 0
    else if m == 1
    then 31
    else if m == 2
    then 59
    else if m == 3
    then 90
    else if m == 4
    then 120
    else if m == 5
    then 151
    else if m == 6
    then 181
    else if m == 7
    then 212
    else if m == 8
    then 243
    else if m == 9
    then 273
    else if m == 10
    then 304
    else 334

pub month_start : Bool → ℕ → ℕ
unfolding common_month_start
month_start leap m = common_month_start m + (if leap && ltb 1 m then 1 else 0)

-- YearFromTime: the last year that begins on or before the day, looked for from `y` on.
year_from : ℕ → ℕ → ℕ → ℕ
year_from zero y day = y
year_from (suc fuel) y day =
    let later = year_from fuel (y + 1) day in if ltb day (day_from_year (y + 1)) then y else later

-- Every year has 365 days at least, which bounds the rounds of the search.
pub year_of : ℕ → ℕ
unfolding year_from day_from_year
year_of day = year_from (day / 365 + 1) 1970 day

-- MonthFromTime: the last month, from `m` down, that begins on or before the day of the year.
month_from : ℕ → Bool → ℕ → ℕ
month_from zero leap d = 0
month_from (suc m) leap d =
    let earlier = month_from m leap d in if leb (month_start leap (suc m)) d then suc m else earlier

pub day_in_year : ℕ → ℕ
unfolding year_of
day_in_year day = day - day_from_year (year_of day)

pub month_of : ℕ → ℕ
unfolding month_from day_in_year month_start is_leap
month_of day = month_from 11 (is_leap (year_of day)) (day_in_year day)

-- DateFromTime, from 1 on
pub date_of : ℕ → ℕ
unfolding month_of
date_of day = day_in_year day - month_start (is_leap (year_of day)) (month_of day) + 1

-- MakeDay: a month past December goes on into the next years, a date past the month's last day
-- into the next month. Dates count from 1.
pub make_day : ℕ → ℕ → ℕ → ℕ
unfolding day_from_year month_start is_leap
make_day y m d =
    let year = y + m / 12 in day_from_year year + month_start (is_leap year) (m % 12) + (d - 1)

-- The setters keep the time of day.
abbrev pub day : ℕ → ℕ
day t = t / ms_per_day

abbrev pub with_day : ℕ → ℕ → ℕ
with_day t d = d * ms_per_day + t % ms_per_day

-- The days that the three setters give: a year later, a month later, n days later.
pub year_later : ℕ → ℕ
year_later d = make_day (year_of d + 1) (month_of d) (date_of d)

pub month_later : ℕ → ℕ
month_later d = make_day (year_of d) (month_of d + 1) (date_of d)

pub days_later : ℕ → ℕ → ℕ
days_later n d = make_day (year_of d) (month_of d) (date_of d + n)

-- d.setFullYear(d.getFullYear() + 1)
pub add_year : ℕ → ℕ
add_year t = with_day t (year_later (day t))

-- d.setMonth(d.getMonth() + 1)
pub add_month : ℕ → ℕ
add_month t = with_day t (month_later (day t))

-- d.setDate(d.getDate() + n)
pub add_days : ℕ → ℕ → ℕ
add_days n t = with_day t (days_later n (day t))

-- new Date(d.getFullYear(), d.getMonth() + 1, 0).getDate(): the month's last day
pub days_in_month : ℕ → ℕ
days_in_month t = date_of (make_day (year_of (day t)) (month_of (day t) + 1) 1 - 1)

-- getUTCDay: 1970 began on a Thursday; Sunday is 0
pub week_day : ℕ → ℕ
week_day d = (d + 4) % 7

-- new Date(d.getFullYear(), d.getMonth(), 1)
pub month_begin : ℕ → ℕ
month_begin t = make_day (year_of (day t)) (month_of (day t)) 1 * ms_per_day

-- A test or a proof that runs the calendar unfolds this name.
unfoldable pub calendar : Unit {0}
unfolding make_day date_of year_later month_later days_later add_year add_month add_days
    days_in_month month_begin week_day
calendar = tt
