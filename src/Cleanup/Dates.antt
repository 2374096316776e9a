-- ===== src/Cleanup/Dates.antt =====
-- client/utils/equal-date.cc: whether two broken-down times lie in the same period. The fields of
-- struct tm are ints; those that only grow from zero are numbers.
use snapper.Base.{
  ◌≢◌, ℕ, ◌+◌, ◌/◌, ◌%◌, ◌≡◌, Bool, true, false, not, ◌&&◌, ◌||◌, arith, ◌==◌, if◌then◌else◌,
}
use snapper.Base.Int.{ℤ, pos, pos_part, neg_part, ◌+ℤ◌, ◌-ℤ◌, ◌==ℤ◌}

pub record Tm : Type 0 where
  pub tm_year : ℤ
  pub tm_mon : ℕ
  pub tm_mday : ℕ
  pub tm_hour : ℕ
  pub tm_yday : ℕ
  pub tm_wday : ℕ

-- x % m == 0 on an int: C's remainder is zero exactly when the absolute value's is.
abbrev pub divides : ℕ → ℤ → Bool
divides m x = ((pos_part x + neg_part x) % m) == 0

-- The macro isleapyear. It is applied to tm_year, which counts from 1900.
unfoldable pub isleapyear : ℤ → Bool
isleapyear year = divides 4 year && (not (divides 100 year) || divides 400 year)

unfoldable pub yday_of_weeks_monday : Tm → ℤ
yday_of_weeks_monday t = pos t.tm_yday -ℤ pos (if t.tm_wday == 0 then 7 else t.tm_wday)

unfoldable pub days_in_year : Tm → ℤ
unfolding isleapyear
days_in_year t = if isleapyear t.tm_year then pos 366 else pos 365

unfoldable pub equal_year : Tm → Tm → Bool
equal_year t u = t.tm_year ==ℤ u.tm_year

unfoldable pub equal_quarter : Tm → Tm → Bool
unfolding equal_year
equal_quarter t u = equal_year t u && ((t.tm_mon / 3) == (u.tm_mon / 3))

unfoldable pub equal_month : Tm → Tm → Bool
unfolding equal_year
equal_month t u = equal_year t u && (t.tm_mon == u.tm_mon)

unfoldable pub equal_week : Tm → Tm → Bool
unfolding yday_of_weeks_monday days_in_year
equal_week t u =
    if t.tm_year ==ℤ u.tm_year
    then yday_of_weeks_monday t ==ℤ yday_of_weeks_monday u
    else if (t.tm_year +ℤ pos 1) ==ℤ u.tm_year
    then yday_of_weeks_monday t ==ℤ (yday_of_weeks_monday u +ℤ days_in_year t)
    else if t.tm_year ==ℤ (u.tm_year +ℤ pos 1)
    then (yday_of_weeks_monday t +ℤ days_in_year u) ==ℤ yday_of_weeks_monday u
    else false

unfoldable pub equal_day : Tm → Tm → Bool
unfolding equal_month
equal_day t u = equal_month t u && (t.tm_mday == u.tm_mday)

unfoldable pub equal_hour : Tm → Tm → Bool
unfolding equal_day
equal_hour t u = equal_day t u && (t.tm_hour == u.tm_hour)

-- The periods are nested: times of one hour are of one day, of one day in one month, of one month in
-- one quarter, and of one quarter in one year.
pub nested :
    (t u : Tm)
    → (equal_hour t u ≡ true → equal_day t u ≡ true)
      × (equal_day t u ≡ true → equal_month t u ≡ true)
      × (equal_month t u ≡ true → equal_quarter t u ≡ true)
      × (equal_quarter t u ≡ true → equal_year t u ≡ true)
unfolding equal_hour equal_quarter
nested t u = (λ h. ground arith, λ h. ground arith, λ h. ground arith, λ h. ground arith)

-- The calendar's rule for a year.
abbrev pub gregorian : ℕ → Bool
gregorian year = ((year % 4) == 0) && (not ((year % 100) == 0) || ((year % 400) == 0))

-- From 1900 on, days_in_year gives the days of the calendar's year except where the year modulo 400
-- is 0, such as 2000, where it gives 365, and where that is 300, such as 1900 and 2300, where it gives
-- 366.
pub days_in_year_lem :
    (t : Tm) (n : ℕ)
    → t.tm_year ≡ pos n
    → (((n + 1900) % 400 ≡ 0) → days_in_year t ≡ pos 365)
      × (((n + 1900) % 400 ≡ 300) → days_in_year t ≡ pos 366)
      × (((n + 1900) % 400 ≢ 0)
          → ((n + 1900) % 400 ≢ 300)
          → days_in_year t ≡ pos (if gregorian (n + 1900) then 366 else 365))
unfolding days_in_year
days_in_year_lem t n e = (λ h. ground arith, λ h. ground arith, λ h k. ground arith)
