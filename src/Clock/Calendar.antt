-- ===== src/Clock/Calendar.antt =====
-- The day number of `init_rtc` against the calendar.
use xinix.Base.{
  ℕ, zero, suc, ◌+◌, ◌-◌, ◌*◌, ◌/◌, ◌%◌, ◌^◌, ◌≤◌, ◌<◌, ◌≡◌, Bool, true, false, ◌&&◌, ◌||◌, inl,
  inr, refl, arith, ltb, leb, ◌==◌, not, if◌then◌else◌, u8, u16, u64, none, some, Option-cases,
  holds_below, holds_below_lem, ap,
}
use xinix.Base.Bits.{bit_and_low}
use xinix.Clock.{
  epoch_days, epoch_leap_days, is_leap_year, start_month, leap_days_1970, sub16, widen16,
}

-- The Gregorian rule
pub leap : ℕ → Bool
leap year = (year % 4 == 0 && not (year % 100 == 0)) || year % 400 == 0

-- The days from 1970 to the start of the year that is so many years later
pub days_to_year : ℕ → ℕ
days_to_year zero = 0
days_to_year (suc n) = days_to_year n + (if leap (1970 + n) then 366 else 365)

pub month_length : Bool → ℕ → ℕ
month_length in_leap month =
    if month == 2
    then (if in_leap then 29 else 28)
    else if month == 4 || (month == 6 || (month == 9 || month == 11))
    then 30
    else 31

-- The days from the start of the year to the month that follows so many others
pub days_to_month : Bool → ℕ → ℕ
days_to_month in_leap zero = 0
days_to_month in_leap (suc m) = days_to_month in_leap m + month_length in_leap (suc m)

-- The day number of a date, with the month and the day counted from 0
abbrev pub day_number : ℕ → ℕ → ℕ → ℕ
day_number year month day = days_to_year (year - 1970) + days_to_month (leap year) month + day

leap_days : ℕ → ℕ
leap_days start = start / 4 - start / 100 + start / 400

leap_days-suc : (s : ℕ) → leap_days (suc s) ≡ leap_days s + (if leap (1601 + s) then 1 else 0)
unfolding leap_days leap
leap_days-suc s = ground arith

days_to_year_lem : (n : ℕ) → days_to_year n + 89 ≡ n * 365 + leap_days (369 + n)
unfolding days_to_year leap_days
days_to_year_lem zero = refl
days_to_year_lem (suc n) =
    let same : leap (1601 + (369 + n)) ≡ leap (1970 + n) = ap leap (omega arith) in
    let next : leap_days (369 + suc n) ≡ leap_days (suc (369 + n)) = ap leap_days (omega arith) in
    ground (arith, same, next, days_to_year_lem n, leap_days-suc (369 + n))

-- The months, from 0
month_table :
    (in_leap : Bool)
    → holds_below
        (λ m. elim (start_month (suc m) in_leap) [
          | none ↦ false
          | some d ↦ d == days_to_month in_leap m
        ])
        12
      ≡ true
unfolding holds_below start_month days_to_month month_length
month_table false = refl
month_table true = refl

leap_shift_table :
    holds_below (λ m. days_to_month true m == days_to_month false m + (if leb 2 m then 1 else 0)) 12
    ≡ true
unfolding holds_below days_to_month month_length
leap_shift_table = refl

leap_shift :
    (m : ℕ) → m < 12 → days_to_month true m ≡ days_to_month false m + (if leb 2 m then 1 else 0)
leap_shift m h = ground (arith, holds_below_lem _ 12 {v = m} h leap_shift_table)

start_month_lem :
    (in_leap : Bool) (m : ℕ) → m < 12 → start_month (suc m) in_leap ≡ some (days_to_month in_leap m)
start_month_lem in_leap m h = elim (Option-cases (start_month (suc m) in_leap)) [
  | inl e ↦ ground (arith, e, holds_below_lem _ 12 {v = m} h (month_table in_leap))
  | inr (d, e) ↦ ground (arith, e, holds_below_lem _ 12 {v = m} h (month_table in_leap))
]

-- The day numbers that the code's leap test misplaces: from March on, a leap year is a day short, and
-- a year after a century a day too long.
abbrev pub short : ℕ → ℕ → ℕ
short year month = if leap year && leb 2 month then 1 else 0

abbrev pub long : ℕ → ℕ → ℕ
long year month = if year % 100 == 1 && leb 2 month then 1 else 0

is_leap_year_lem : (year : ℕ) → 1970 ≤ year → year < 10000 → is_leap_year year ≡ (year % 100 == 1)
unfolding is_leap_year
is_leap_year_lem year from to = ground (arith, bit_and_low 2 (sub16 year 1601))

month_bound_table :
    (in_leap : Bool) → holds_below (λ m. ltb (days_to_month in_leap m) 336) 12 ≡ true
unfolding holds_below days_to_month month_length
month_bound_table false = refl
month_bound_table true = refl

month_bound : (in_leap : Bool) (m : ℕ) → m < 12 → days_to_month in_leap m < 336
month_bound in_leap m h = ground (arith, holds_below_lem _ 12 {v = m} h (month_bound_table in_leap))

epoch_leap_days_lem :
    (year : ℕ)
    → 1970 ≤ year
    → year < 10000
    → epoch_leap_days year + leap_days_1970 ≡ leap_days (year - 1601)
unfolding epoch_leap_days leap_days
epoch_leap_days_lem year from to = omega arith

leap_days_bound : (s : ℕ) → s < 10000 → leap_days s < 10000
unfolding leap_days
leap_days_bound s h = omega arith

misplaced :
    (right code : Bool) (m : ℕ)
    → (right ≡ true → code ≡ false)
    → m < 12
    → days_to_month code m + (if right && leb 2 m then 1 else 0)
      ≡ days_to_month right m + (if code && leb 2 m then 1 else 0)
misplaced false false m apart h = refl
misplaced false true m apart h = omega (arith, leap_shift m h)
misplaced true false m apart h = omega (arith, leap_shift m h)
misplaced true true m apart h = ground (arith, apart refl)

apart_lem : (year : ℕ) → leap year ≡ true → (year % 100 == 1) ≡ false
unfolding leap
apart_lem year e = ground arith

-- The sum that the code forms, with the days of the months and the leap days given.
day_sum :
    (year month day months leaps : ℕ)
    → 1970 ≤ year
    → year < 10000
    → day < 31
    → months < 336
    → leaps + leap_days_1970 ≡ leap_days (year - 1601)
    → months + short year month ≡ days_to_month (leap year) month + long year month
    → u64
        (widen16 (sub16 year 1970) * 365 + widen16 leaps + u16 (months + u8 (suc day + 2 ^ 8 - 1)))
      ≡ day_number year month day + long year month - short year month
day_sum year month day months leaps from to in_day in_months count places =
    let years = days_to_year_lem (year - 1970) in
    let from_1601 : leap_days (369 + (year - 1970)) ≡ leap_days (year - 1601) =
      ap leap_days (omega arith) in
    let bound = leap_days_bound (year - 1601) (omega arith) in ground arith

-- From 1970 to 9999 `init_rtc` numbers the days as the calendar does, but for one day: from March on,
-- a leap year is a day short, and a year after a multiple of 100 a day too long.
pub epoch_days_lem :
    (year month day : ℕ)
    → 1970 ≤ year
    → year < 10000
    → month < 12
    → day < 31
    → epoch_days year (suc month) (suc day)
      ≡ some (day_number year month day + long year month - short year month)
unfolding epoch_days
epoch_days_lem year month day from to in_month in_day =
    rw
      (
        start_month_lem (is_leap_year year) month in_month,
        epoch_days,
        is_leap_year_lem year from to,
      )
      (ap some (
        day_sum year month day _ _ from to in_day (month_bound (year % 100 == 1) month in_month)
          (epoch_leap_days_lem year from to)
          (misplaced (leap year) (year % 100 == 1) month (apart_lem year) in_month)))
