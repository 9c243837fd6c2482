-- ===== src/Utils/Dates.antt =====
-- Date (pkg/utils/date.go) and Month (pkg/utils/month.go): dates packed in decimal digits. Years are
-- not negative and the number fits into Go's int.
use go_backend_helpers.Prelude.{
  ℕ, ◌+◌, ◌-◌, ◌*◌, ◌/◌, ◌%◌, ◌≤◌, ◌<◌, ◌≡◌, ◌⊎◌, ◌↔◌, eqb, if◌then◌else◌, arith,
}

-- `Date.Set`, `Year`, `Month`, `Day`
unfoldable pub date : ℕ → ℕ → ℕ → ℕ
date year month day = year * 10000 + month * 100 + day

unfoldable pub date_year : ℕ → ℕ
date_year d = d / 10000

unfoldable pub date_month : ℕ → ℕ
date_month d = d % 10000 / 100

unfoldable pub date_day : ℕ → ℕ
date_day d = d % 100

-- `Month.Set`, `Year`, `Month`
unfoldable pub month_of : ℕ → ℕ → ℕ
month_of year month = year * 100 + month

unfoldable pub month_year : ℕ → ℕ
month_year m = m / 100

unfoldable pub month_month : ℕ → ℕ
month_month m = m - month_year m * 100

-- `Date.MMonth`
unfoldable pub date_mmonth : ℕ → ℕ
date_mmonth d = month_of (date_year d) (date_month d)

-- `Prev`
unfoldable pub prev : ℕ → ℕ
prev m =
    if eqb (month_month m) 1
    then month_of (month_year m - 1) 12
    else month_of (month_year m) (month_month m - 1)

-- `Next`
unfoldable pub next : ℕ → ℕ
next m =
    if eqb (month_month m) 12
    then month_of (month_year m + 1) 1
    else month_of (month_year m) (month_month m + 1)

-- A month and a day below 100 come back from a packed date, with the year, and `MMonth` of it is the
-- packed month.
date_parts :
    (y m d : ℕ)
    → m < 100
    → d < 100
    → (date_year (date y m d) ≡ y)
      × (date_month (date y m d) ≡ m)
      × (date_day (date y m d) ≡ d)
      × (date_mmonth (date y m d) ≡ month_of y m)
unfolding date date_year date_month date_day date_mmonth month_of
date_parts y m d hm hd = (omega arith, omega arith, omega arith, omega arith)

-- Packed dates are ordered as numbers the way the calendar orders them.
date_order :
    (y m d y' m' d' : ℕ)
    → m < 100
    → d < 100
    → m' < 100
    → d' < 100
    → (date y m d < date y' m' d') ↔ ((y < y') ⊎ ((y ≡ y') × ((m < m') ⊎ ((m ≡ m') × (d < d')))))
unfolding date
date_order y m d y' m' d' hm hd hm' hd' = ground arith

-- From a month 1 to 12 of a year from 1 on, `Next` and `Prev` lead to the month after and before it:
-- each undoes the other.
next-prev :
    (y m : ℕ)
    → 1 ≤ y
    → 1 ≤ m
    → m ≤ 12
    → (prev (next (month_of y m)) ≡ month_of y m) × (next (prev (month_of y m)) ≡ month_of y m)
unfolding prev next month_of month_year month_month
next-prev y m hy h1 h2 = (ground arith, ground arith)
