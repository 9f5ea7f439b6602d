-- ===== src/Base/Calendar.antt =====
-- Python's `datetime.date`: a calendar day, its order and its proleptic Gregorian ordinal.
use Prim.Native.Nat.{ℕ, zero, suc, ◌+◌, ◌-◌, ◌*◌, ◌/◌, ◌%◌}
use mathlib.Core.Bool.{Bool, not, ◌&&◌, ◌||◌}
use mathlib.Core.List.{List, [], ◌∷◌, ◌++◌}
use fd_open_data_mcp.Base.Lists.{drop}
use fd_open_data_mcp.Base.Equality.{Text}
use fd_open_data_mcp.Base.Tests.{ltb, nat_beq, if◌then◌else◌}

pub record Date : Type 0 where
  pub year : ℕ
  pub month : ℕ
  pub day : ℕ

-- `a < b`, by year, month and day.
unfoldable pub date_lt : Date → Date → Bool
date_lt a b =
    ltb a.year b.year
    || (nat_beq a.year b.year
        && (ltb a.month b.month || (nat_beq a.month b.month && ltb a.day b.day)))

unfoldable pub is_leap : ℕ → Bool
is_leap y = nat_beq (y % 4) 0 && (not (nat_beq (y % 100) 0) || nat_beq (y % 400) 0)

unfoldable pub days_before_year : ℕ → ℕ
days_before_year y = (y - 1) * 365 + (y - 1) / 4 - (y - 1) / 100 + (y - 1) / 400

abbrev month_starts : List ℕ
month_starts = 0 ∷ 31 ∷ 59 ∷ 90 ∷ 120 ∷ 151 ∷ 181 ∷ 212 ∷ 243 ∷ 273 ∷ 304 ∷ 334 ∷ []

-- The days of the months before month m of a year with no leap day.
unfoldable pub days_before_month : ℕ → ℕ
days_before_month m = elim (drop (m - 1) month_starts) [ [] ↦ 0 | d ∷ ds ↦ d ]

-- `d.toordinal()`
unfoldable pub ordinal : Date → ℕ
unfolding is_leap days_before_year days_before_month
ordinal d =
    days_before_year d.year
    + days_before_month d.month
    + (if ltb 2 d.month && is_leap d.year then 1 else 0)
    + d.day

unfoldable pub month_length : ℕ → ℕ → ℕ
unfolding days_before_month is_leap
month_length y m =
    days_before_month (suc m) - days_before_month m + (if nat_beq m 2 && is_leap y then 1 else 0)

-- The day before.
unfoldable pub prev_day : Date → Date
unfolding month_length
prev_day d =
    if ltb 1 d.day
    then record d { day = d.day - 1 }
    else if ltb 1 d.month
    then record { year = d.year; month = d.month - 1; day = month_length d.year (d.month - 1) }
    else record { year = d.year - 1; month = 12; day = 31 }

-- `d - timedelta(days=n)`, for days that are not before the first year.
unfoldable pub minus_days : ℕ → Date → Date
unfolding prev_day
minus_days zero d = d
minus_days (suc n) d = prev_day (minus_days n d)

abbrev two_digits : ℕ → Text
two_digits n = (48 + n / 10) ∷ (48 + n % 10) ∷ []

-- `d.isoformat()`
unfoldable pub date_text : Date → Text
date_text d =
    two_digits (d.year / 100)
    ++ (two_digits (d.year % 100) ++ (45 ∷ two_digits d.month ++ (45 ∷ two_digits d.day)))
