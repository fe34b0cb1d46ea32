-- ===== src/Clock/Hours.antt =====
-- The adjustments of `init_rtc` against the encodings of the CMOS clock.
use xinix.Base.{
  ℕ, ◌+◌, ◌*◌, ◌/◌, ◌%◌, ◌<◌, ◌≡◌, Bool, true, false, ◌&&◌, refl, arith, ltb, leb, ◌==◌,
  if◌then◌else◌, bit_and, holds_below, holds_below_lem,
}
use xinix.Clock.{CmosRtc, normalise, adjust_hours, adjust_bcd, bcd_to_bin}

-- Two decimal digits
abbrev pub bcd : ℕ → ℕ
bcd x = x / 10 * 16 + x % 10

-- The hours that a clock face shows, and the mark of the afternoon
abbrev pub face : ℕ → ℕ
face h = if h % 12 == 0 then 12 else h % 12

abbrev pub afternoon : ℕ → ℕ
afternoon h = if ltb h 12 then 0 else 0x80

abbrev pub is_bcd : ℕ → Bool
is_bcd rtc_format = bit_and rtc_format 4 == 0

abbrev pub is_12h : ℕ → Bool
is_12h rtc_format = bit_and rtc_format 2 == 0

-- A number as the clock keeps it
abbrev pub encode_field : Bool → ℕ → ℕ
encode_field in_bcd x = if in_bcd then bcd x else x

abbrev pub encode_hours : Bool → Bool → ℕ → ℕ
encode_hours in_bcd in_12h h =
    if in_12h
    then (if in_bcd then bcd (face h) + afternoon h else face h + afternoon h)
    else (if in_bcd then bcd h else h)

-- The registers of a clock that shows `t`, by what bits 4 and 2 of the format say
abbrev pub encoded : Bool → Bool → CmosRtc → CmosRtc
encoded in_bcd in_12h t = record {
  seconds = encode_field in_bcd t.seconds;
  minutes = encode_field in_bcd t.minutes;
  hours = encode_hours in_bcd in_12h t.hours;
  days = encode_field in_bcd t.days;
  months = encode_field in_bcd t.months;
  years = encode_field in_bcd t.years;
  century = encode_field in_bcd t.century;
}

abbrev pub encode : ℕ → CmosRtc → CmosRtc
encode rtc_format = encoded (is_bcd rtc_format) (is_12h rtc_format)

pub record InRange (t : CmosRtc) : Type 0 where
  pub seconds_in : t.seconds < 60
  pub minutes_in : t.minutes < 60
  pub hours_in : t.hours < 24
  pub days_in : t.days < 32
  pub months_in : t.months < 13
  pub years_in : t.years < 100
  pub century_in : t.century < 100

-- What `init_rtc` makes of the hours, and of the century
abbrev pub hours_read : Bool → Bool → ℕ → ℕ
hours_read in_bcd in_12h h = if in_bcd && (in_12h && leb 12 h) then 80 + face h else h

abbrev pub century_read : Bool → ℕ → ℕ → ℕ
century_read in_bcd century_port century =
    if century_port == 0 then (if in_bcd then 14 else 20) else century

bcd_table : holds_below (λ x. bcd_to_bin (bcd x) == x) 100 ≡ true
unfolding holds_below bcd_to_bin
bcd_table = refl

bcd_to_bin-bcd : (x : ℕ) → x < 100 → bcd_to_bin (bcd x) ≡ x
bcd_to_bin-bcd x h = ground (arith, holds_below_lem _ 100 {v = x} h bcd_table)

-- How `init_rtc` reads an hour.
abbrev read_hours : Bool → Bool → ℕ → ℕ
read_hours in_bcd in_12h hours =
    let plain = if in_bcd then bcd_to_bin hours else hours in
    if in_12h then adjust_hours plain else plain

abbrev hours_test : Bool → Bool → ℕ → Bool
hours_test in_bcd in_12h h =
    read_hours in_bcd in_12h (encode_hours in_bcd in_12h h) == hours_read in_bcd in_12h h

hours_table : (in_bcd in_12h : Bool) → holds_below (hours_test in_bcd in_12h) 24 ≡ true
unfolding holds_below bcd_to_bin adjust_hours
hours_table false false = refl
hours_table false true = refl
hours_table true false = refl
hours_table true true = refl

read_hours-encode_hours :
    (in_bcd in_12h : Bool) (h : ℕ)
    → h < 24
    → read_hours in_bcd in_12h (encode_hours in_bcd in_12h h) ≡ hours_read in_bcd in_12h h
read_hours-encode_hours in_bcd in_12h h lt =
    ground
      (arith, holds_below_lem (hours_test in_bcd in_12h) 24 {v = h} lt (hours_table in_bcd in_12h))

-- `normalise`, as a function of the tests that it makes
abbrev adjusted : Bool → Bool → Bool → CmosRtc → CmosRtc
adjusted in_bcd in_12h absent v0 =
    let v1 = record v0 { century = if absent then 20 else v0.century } in
    let v2 = if in_bcd then adjust_bcd v1 else v1 in
    if in_12h then record v2 { hours = adjust_hours v2.hours } else v2

adjust_bcd-encoded :
    (in_12h absent : Bool) (t : CmosRtc)
    → InRange t
    → adjust_bcd (record (encoded true in_12h t) { century = if absent then 20 else bcd t.century })
      ≡ record t {
        hours = bcd_to_bin (encode_hours true in_12h t.hours);
        century = if absent then 14 else t.century;
      }
unfolding adjust_bcd bcd_to_bin
adjust_bcd-encoded in_12h false t v = rw (
  bcd_to_bin-bcd t.seconds (omega arith),
  bcd_to_bin-bcd t.minutes (omega arith),
  bcd_to_bin-bcd t.days (omega arith),
  bcd_to_bin-bcd t.months (omega arith),
  bcd_to_bin-bcd t.years (omega arith),
  bcd_to_bin-bcd t.century (omega arith),
)
adjust_bcd-encoded in_12h true t v = rw (
  bcd_to_bin-bcd t.seconds (omega arith),
  bcd_to_bin-bcd t.minutes (omega arith),
  bcd_to_bin-bcd t.days (omega arith),
  bcd_to_bin-bcd t.months (omega arith),
  bcd_to_bin-bcd t.years (omega arith),
)

adjusted-encoded :
    (in_bcd in_12h absent : Bool) (t : CmosRtc)
    → InRange t
    → adjusted in_bcd in_12h absent (encoded in_bcd in_12h t) ≡ record t {
      hours = hours_read in_bcd in_12h t.hours;
      century = if absent then (if in_bcd then 14 else 20) else t.century;
    }
adjusted-encoded true true absent t v =
    rw (adjust_bcd-encoded true absent t v, read_hours-encode_hours true true t.hours v.hours_in)
adjusted-encoded true false absent t v =
    rw (adjust_bcd-encoded false absent t v, read_hours-encode_hours true false t.hours v.hours_in)
adjusted-encoded false true absent t v = rw (read_hours-encode_hours false true t.hours v.hours_in)
adjusted-encoded false false absent t v = refl

-- From the registers of a clock that shows `t` the adjustments get `t` back, in every format, but
-- that in BCD with the 12-hour format an hour of the afternoon comes out as 80 plus the hour on the
-- clock's face, and that without a register of the century it comes out as 20, in BCD as 14.
pub normalise-encode :
    (rtc_format century_port : ℕ) (t : CmosRtc)
    → InRange t
    → normalise rtc_format century_port (encode rtc_format t) ≡ record t {
      hours = hours_read (is_bcd rtc_format) (is_12h rtc_format) t.hours;
      century = century_read (is_bcd rtc_format) century_port t.century;
    }
unfolding normalise
normalise-encode rtc_format century_port t v =
    adjusted-encoded (is_bcd rtc_format) (is_12h rtc_format) (century_port == 0) t v
