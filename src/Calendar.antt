-- ===== src/Calendar.antt =====
-- What the program uses of package time on UTC dates: AddDate(0, 0, -1) and the layouts "20060102"
-- and "2006-01-02". A date is in the proleptic Gregorian calendar.
pub mod Laws
use go_espn_api.Prelude.{
  ℕ, ◌+◌, ◌-◌, ◌/◌, ◌%◌, ◌≤◌, ◌<◌, Bool, true, false, ◌&&◌, ◌||◌, not, List, [], ◌∷◌, ◌++◌, Bytes,
  ltb, leb, ◌==◌, if◌then◌else◌,
}

pub record Date : Type 0 where
  pub year : ℕ
  pub month : ℕ
  pub day : ℕ

unfoldable pub is_leap : ℕ → Bool
is_leap y = y % 4 == 0 && (not (y % 100 == 0) || y % 400 == 0)

unfoldable pub days_in : ℕ → ℕ → ℕ
unfolding is_leap
days_in y m =
    if m == 2
    then (if is_leap y then 29 else 28)
    else if m == 4 || m == 6 || m == 9 || m == 11
    then 30
    else 31

pub record IsDate (d : Date) : Type 0 where
  pub year : d.year < 10000
  pub month_pos : 1 ≤ d.month
  pub month_le : d.month ≤ 12
  pub day_pos : 1 ≤ d.day
  pub day_le : d.day ≤ days_in d.year d.month

-- t.AddDate(0, 0, -1).
unfoldable pub day_before : Date → Date
unfolding days_in
day_before d =
    if ltb 1 d.day
    then record d { day = d.day - 1 }
    else if ltb 1 d.month
    then record { year = d.year; month = d.month - 1; day = days_in d.year (d.month - 1) }
    else record { year = d.year - 1; month = 12; day = 31 }

abbrev pub two_digits : ℕ → Bytes
two_digits n = (48 + n / 10 % 10) ∷ (48 + n % 10) ∷ []

abbrev pub four_digits : ℕ → Bytes
four_digits n = (48 + n / 1000 % 10) ∷ (48 + n / 100 % 10) ∷ two_digits n

-- t.Format("20060102"), for the years below 10000.
unfoldable pub format_compact : Date → Bytes
format_compact d = four_digits d.year ++ (two_digits d.month ++ two_digits d.day)
