-- ===== src/Clock/Examples.antt =====
-- The clock at inputs.
use xinix.Base.{◌+◌, ◌-◌, ◌≡◌, ◌⊎◌, refl, none, some, [], ◌∷◌, arith, ◌==◌, if◌then◌else◌}
use xinix.Clock.{
  Duration, second, duration_add, CmosRtc, RtcState, normalise, epoch_days, confirm, init_rtc,
  start_clock, try_read_rtc, adjust_hours, bcd_to_bin, adjust_bcd, start_month, is_leap_year,
  epoch_leap_days, Registers,
}
use xinix.Clock.Arithmetic.{IsNormal}
use xinix.Clock.Hours.{InRange, encode, hours_read, century_read, is_bcd, is_12h, normalise-encode}
use xinix.Clock.Calendar.{day_number, short, long, epoch_days_lem}
use xinix.Clock.Reading.{Differ, confirm_lem}

abbrev late : Duration
late = record { time_seconds = 10; time_nanos = 999_999_999 }

abbrev tick : Duration
tick = record { time_seconds = 2; time_nanos = 7 }

late-IsNormal : IsNormal late
late-IsNormal = record { seconds_in = omega arith; nanos_in = omega arith }

tick-IsNormal : IsNormal tick
tick-IsNormal = record { seconds_in = omega arith; nanos_in = omega arith }

-- One second in nanoseconds alone is not carried.
full_second :
    duration_add
      (record { time_seconds = 1; time_nanos = 999_999_999 })
      (record { time_seconds = 0; time_nanos = 1 })
    ≡ record { time_seconds = 1; time_nanos = second }
unfolding duration_add
full_second = refl

-- Half past three in the afternoon of the last day of February 2024.
abbrev leap_eve : CmosRtc
leap_eve = record {
  seconds = 59;
  minutes = 30;
  hours = 15;
  days = 29;
  months = 2;
  years = 24;
  century = 20;
}

leap_eve-InRange : InRange leap_eve
leap_eve-InRange = record {
  seconds_in = omega arith;
  minutes_in = omega arith;
  hours_in = omega arith;
  days_in = omega arith;
  months_in = omega arith;
  years_in = omega arith;
  century_in = omega arith;
}

normalise-encode_example : normalise 0 0x32 (encode 0 leap_eve) ≡ record leap_eve {
  hours = hours_read (is_bcd 0) (is_12h 0) 15;
  century = century_read (is_bcd 0) 0x32 20;
}
normalise-encode_example = normalise-encode 0 0x32 leap_eve leap_eve-InRange

afternoon_hour : (normalise 0 0x32 (encode 0 leap_eve)).hours ≡ 83
unfolding normalise adjust_bcd bcd_to_bin adjust_hours
afternoon_hour = refl

epoch_days_lem_example :
    epoch_days 2024 3 1 ≡ some (day_number 2024 2 0 + long 2024 2 - short 2024 2)
epoch_days_lem_example =
    epoch_days_lem 2024 2 0 (omega arith) (omega arith) (omega arith) (omega arith)

-- The twenty-ninth of February and the first of March 2024 have the same number.
same_number : epoch_days 2024 2 29 ≡ epoch_days 2024 3 1
unfolding epoch_days start_month is_leap_year epoch_leap_days
same_number = refl

abbrev started : RtcState
started = record {
  last_init_time = record { time_seconds = 1_700_000_000; time_nanos = 0 };
  last_init_boottime = 1_500_000;
}

abbrev tick_later : CmosRtc
tick_later = record leap_eve { seconds = 0 }

confirm_lem_example :
    ((confirm leap_eve (tick_later ∷ []) ≡ some leap_eve) × (Differ leap_eve (tick_later ∷ []) → ⊥))
    ⊎ ((confirm leap_eve (tick_later ∷ []) ≡ none) × Differ leap_eve (tick_later ∷ []))
confirm_lem_example = confirm_lem leap_eve (tick_later ∷ [])

-- The whole of `init_rtc`, on a clock in BCD and the 24-hour format.
abbrev registers : Registers
registers r =
    if r == 0
    then 0x59
    else if r == 2
    then 0x30
    else if r == 4
    then 0x15
    else if r == 7
    then 0x29
    else if r == 8
    then 2
    else if r == 9
    then 0x24
    else 0x20

init_rtc-registers :
    init_rtc 2 0x32 registers (registers ∷ []) 77 0
    ≡ some (record {
      last_init_time = record { time_seconds = 1_709_220_660; time_nanos = 0 };
      last_init_boottime = 77;
    })
unfolding init_rtc confirm try_read_rtc normalise adjust_bcd bcd_to_bin start_clock epoch_days
    start_month is_leap_year epoch_leap_days
init_rtc-registers = refl
