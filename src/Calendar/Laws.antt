-- ===== src/Calendar/Laws.antt =====
-- The day before a date is a date, and the compact layout tells the dates apart.
use mathlib.Core.Path.{◌≡◌, ap}
use go_espn_api.Prelude.{ℕ, ◌<◌, ◌≤◌, ◌≢◌, arith}
use go_espn_api.Calendar.{Date, IsDate, days_in, day_before, format_compact}

days_in_bounds : (y m : ℕ) → (28 ≤ days_in y m) × (days_in y m ≤ 31)
unfolding days_in
days_in_bounds y m = ground arith

-- The day before a date after the year 0 is a date.
pub day_before-IsDate : (d : Date) → 0 < d.year → IsDate d → IsDate (day_before d)
unfolding day_before
day_before-IsDate d p h = ground arith

pub day_before-ne : (d : Date) → IsDate d → day_before d ≢ d
unfolding day_before
day_before-ne d h e = ground (
  arith,
  ap (λ (x : Date). x.day) e,
  ap (λ (x : Date). x.month) e,
  days_in_bounds d.year (d.month),
)

-- Two dates with the same compact text are the same date.
pub format_compact_inj :
    (d e : Date) → IsDate d → IsDate e → format_compact d ≡ format_compact e → d ≡ e
unfolding format_compact
format_compact_inj d e h k p =
    ground (arith, days_in_bounds d.year d.month, days_in_bounds e.year e.month)
