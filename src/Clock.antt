-- ===== src/Clock.antt =====
-- Wall-clock time: common/include/time.h and kernel/src/x86_64/rtc.c, over the boot-time counter of
-- kernel/src/common/boottime.c. `int64_t` seconds are 64-bit words in two's complement.
pub mod Arithmetic
pub mod Hours
pub mod Calendar
pub mod Reading
mod Examples
use xinix.Base.{
  ℕ, ◌+◌, ◌-◌, ◌*◌, ◌/◌, ◌%◌, ◌^◌, ◌≤◌, ◌<◌, Bool, ◌&&◌, ◌||◌, true, false, Option, none, some,
  List, [], ◌∷◌, map, ◌==◌, ltb, leb, not, if◌then◌else◌, bit_and, u8, u16, u32, u64, sub32, sub64,
  ◌>>>◌,
}

-- `duration_t`
pub record Duration : Type 0 where
  pub time_seconds : ℕ
  pub time_nanos : ℕ

abbrev pub second : ℕ
second = 1_000_000_000

-- The carries of `duration_add` and `duration_sub` test `>`, not `>=`.
pub duration_add : Duration → Duration → Duration
duration_add d1 d2 =
    let seconds = u64 (d1.time_seconds + d2.time_seconds) in
    let nanos = u32 (d1.time_nanos + d2.time_nanos) in
    if ltb second nanos
    then record { time_seconds = u64 (seconds + 1); time_nanos = sub32 nanos second }
    else record { time_seconds = seconds; time_nanos = nanos }

unfoldable pub duration_sub : Duration → Duration → Duration
duration_sub d1 d2 =
    let seconds = sub64 d1.time_seconds d2.time_seconds in
    let nanos = sub32 d1.time_nanos d2.time_nanos in
    if ltb second nanos
    then record { time_seconds = sub64 seconds 1; time_nanos = u32 (nanos + second) }
    else record { time_seconds = seconds; time_nanos = nanos }

-- `struct cmos_rtc_layout`, without its padding
pub record CmosRtc : Type 0 where
  pub seconds : ℕ
  pub minutes : ℕ
  pub hours : ℕ
  pub days : ℕ
  pub months : ℕ
  pub years : ℕ
  pub century : ℕ

pub bcd_to_bin : ℕ → ℕ
bcd_to_bin v = u8 ((v >>> 4) * 10 + bit_and v 0xf)

pub adjust_bcd : CmosRtc → CmosRtc
adjust_bcd v = record {
  seconds = bcd_to_bin v.seconds;
  minutes = bcd_to_bin v.minutes;
  hours = bcd_to_bin v.hours;
  days = bcd_to_bin v.days;
  months = bcd_to_bin v.months;
  years = bcd_to_bin v.years;
  century = bcd_to_bin v.century;
}

-- `memcmp` of two readings
abbrev pub same_reading : CmosRtc → CmosRtc → Bool
same_reading a b =
    a.seconds == b.seconds
    && (a.minutes == b.minutes
        && (a.hours == b.hours
            && (a.days == b.days
                && (a.months == b.months && (a.years == b.years && a.century == b.century)))))

-- The loop that reads until a reading is confirmed, over the readings that `try_read_rtc` gives in
-- turn: each is compared with the first, which is never replaced. `none`: none agrees.
pub confirm : CmosRtc → List CmosRtc → Option CmosRtc
confirm values [] = none
confirm values (values2 ∷ rest) =
    let again = confirm values rest in if same_reading values2 values then some values2 else again

-- The hours of the 12-hour format; bit 7 marks the afternoon.
pub adjust_hours : ℕ → ℕ
adjust_hours hours =
    let nhours = bit_and hours 0x7f in
    let step : ℕ = if bit_and hours 0x80 == 0 then 0 else 12 in
    if nhours == 12 then step else u8 (nhours + step)

-- The adjustments of `init_rtc`, in its order.
pub normalise : ℕ → ℕ → CmosRtc → CmosRtc
normalise rtc_format century_port v0 =
    let v1 = record v0 { century = if century_port == 0 then 20 else v0.century } in
    let v2 = if bit_and rtc_format 4 == 0 then adjust_bcd v1 else v1 in
    if bit_and rtc_format 2 == 0 then record v2 { hours = adjust_hours v2.hours } else v2

abbrev pub year_of : CmosRtc → ℕ
year_of v = u16 (v.century * 100 + v.years)

abbrev pub sub16 : ℕ → ℕ → ℕ
sub16 a b = (a + 2 ^ 16 - b) % 2 ^ 16

-- An `int16_t` widened to 64 bits
abbrev pub widen16 : ℕ → ℕ
widen16 x = if ltb x (2 ^ 15) then x else x + 2 ^ 64 - 2 ^ 16

abbrev pub leap_days_1970 : ℕ
leap_days_1970 = 369 / 4 - 369 / 100

abbrev pub leap_year_start : ℕ → ℕ
leap_year_start year = sub16 year 1601

-- `epoch_leap_days`
pub epoch_leap_days : ℕ → ℕ
epoch_leap_days year =
    let start = leap_year_start year in
    let leap_days = u16 (start / 4 - start / 100 + start / 400) in sub16 leap_days leap_days_1970

-- `is_leap_year`, which the code works out from `leap_year_start`, not from the year
pub is_leap_year : ℕ → Bool
is_leap_year year =
    let start = leap_year_start year in
    bit_and start 3 == 0 && (start % 100 == 0 || start % 400 == 0)

abbrev leap_day : Bool → ℕ
leap_day leap = if leap then 1 else 0

-- `days_in_year_start_month`; without a case of the switch it has no value.
pub start_month : ℕ → Bool → Option ℕ
start_month months leap =
    if months == 1
    then some 0
    else if months == 2
    then some 31
    else if months == 3
    then some (59 + leap_day leap)
    else if months == 4
    then some (90 + leap_day leap)
    else if months == 5
    then some (120 + leap_day leap)
    else if months == 6
    then some (151 + leap_day leap)
    else if months == 7
    then some (181 + leap_day leap)
    else if months == 8
    then some (212 + leap_day leap)
    else if months == 9
    then some (243 + leap_day leap)
    else if months == 10
    then some (273 + leap_day leap)
    else if months == 11
    then some (304 + leap_day leap)
    else if months == 12
    then some (334 + leap_day leap)
    else none

-- `days`, the days from the first of January 1970
pub epoch_days : ℕ → ℕ → ℕ → Option ℕ
epoch_days year months days = elim (start_month months (is_leap_year year)) [
  | none ↦ none
  | some start ↦ some (
      u64 (
        widen16 (sub16 year 1970) * 365
        + widen16 (epoch_leap_days year)
        + u16 (start + u8 (days + 2 ^ 8 - 1))))
]

-- The registers of the CMOS clock, at a time when the update flag of register 0x0A is clear: then
-- they hold still while `try_read_rtc` reads them.
abbrev pub Registers : Type 0
Registers = ℕ → ℕ

pub try_read_rtc : Registers → ℕ → CmosRtc
try_read_rtc regs century_port = record {
  seconds = regs 0x00;
  minutes = regs 0x02;
  hours = regs 0x04;
  days = regs 0x07;
  months = regs 0x08;
  years = regs 0x09;
  century = if century_port == 0 then 0 else regs (bit_and century_port 0x7f);
}

-- `rtc_last_init_time` and `rtc_last_init_boottime`
pub record RtcState : Type 0 where
  pub last_init_time : Duration
  pub last_init_boottime : ℕ

-- The end of `init_rtc`: `values` is the confirmed and adjusted reading; after the wait for the next
-- update, `boottime` and the register of the seconds are read.
pub start_clock : ℕ → CmosRtc → ℕ → ℕ → Option RtcState
start_clock rtc_format values boottime seconds_register =
    elim (epoch_days (year_of values) values.months values.days) [
      | none ↦ none
      | some days ↦
          let hours = u64 (days * 24 + values.hours) in
          let minutes = u64 (hours * 60 + values.minutes) in
          let read =
            if bit_and rtc_format 4 == 0 then bcd_to_bin seconds_register else seconds_register in
          let new_seconds = if ltb read values.seconds then u8 (read + 60) else read in
          some (record {
            last_init_time = record {
              time_seconds = u64 (minutes * 60 + new_seconds);
              time_nanos = 0;
            };
            last_init_boottime = boottime;
          })
    ]

-- `init_rtc`. The registers at the first reading, at each later one, and what is read after the
-- update; `none` also stands for a loop that no reading ends.
pub init_rtc : ℕ → ℕ → Registers → List Registers → ℕ → ℕ → Option RtcState
init_rtc rtc_format century_port first later boottime seconds_register =
    elim (confirm (try_read_rtc first century_port)
      (map (λ r. try_read_rtc r century_port) later)) [
        | none ↦ none
        | some v ↦
            start_clock rtc_format (normalise rtc_format century_port v) boottime seconds_register
      ]

-- kernel/src/common/boottime.c: the counter of microseconds
unfoldable pub isr_increment_boottime : ℕ → ℕ → ℕ
isr_increment_boottime boottime val = u64 (boottime + val)

-- `read_global_rtc`, with what `read_boottime_micros` gives; `none` is the panic.
pub read_global_rtc : RtcState → ℕ → Option Duration
read_global_rtc s cur_boottime =
    let diff = sub64 cur_boottime s.last_init_boottime in
    if ltb cur_boottime diff
    then none
    else some (
        duration_add s.last_init_time
          (record { time_seconds = diff / 1_000_000; time_nanos = u32 (diff % 1_000_000 * 1000) }))
