-- ===== src/Calendar/Tests.antt =====
-- Runs of the calendar, and its round trip at 25 November 2026.
use mytrackr_backend.Prelude.{◌≡◌, refl}
use mytrackr_backend.Calendar.{year_of, month_of, date_of, make_day, add_month, calendar}
use mytrackr_backend.Calendar.Laws.{make_day_of_parts}

parts_of_today : make_day (year_of 20782) (month_of 20782) (date_of 20782) ≡ 20782
parts_of_today = make_day_of_parts 20782

-- A month after 31 January 2026 is 3 March.
add_month_end : add_month 1769817600000 ≡ 1772496000000
unfolding calendar
add_month_end = refl
