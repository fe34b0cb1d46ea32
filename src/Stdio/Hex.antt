-- ===== src/Stdio/Hex.antt =====
-- `print_unsigned_int` in base 16: the layout of digits that say the number.
use xinix.Base.{
  ℕ, ◌+◌, ◌-◌, ◌^◌, ◌≤◌, ◌<◌, ◌≡◌, refl, ap, ◌∙◌, arith, true, Option, List, [], ◌++◌, ltb, leb,
  if◌then◌else◌, length, replicate, length-replicate, length-append,
}
use xinix.Stdio.{
  StringFile, Flags, print_short, radix_digits, trailing_zeros, needed_precision,
  print_unsigned_int, default_precision,
}
use xinix.Stdio.Decimal.{printed, write_start}
use xinix.Stdio.Radix.{IsAlphabet, radix_digits_lem, needed_precision_lem, read_hex}
use mathlib.Core.List.{append-nil}
use xinix.Stdio.Layout.{prefix_of, layout, write_nil, print_short_lem}

bits_16 : trailing_zeros 32 16 ≡ 4
unfolding trailing_zeros
bits_16 = refl

length-layout :
    (flags : Flags) (prefix digits : List ℕ) (min_width : ℕ)
    → length (layout flags prefix digits min_width) ≤ min_width + length digits + length prefix
length-layout flags prefix digits min_width =
    let front = prefix_of flags prefix in
    let padding = min_width - (length front + length digits) in
    let front_size : length front ≤ length prefix = ground arith in
    ground (
      arith,
      front_size,
      length-append {A = ℕ} (front ++ digits) (replicate padding 0x20),
      length-append {A = ℕ} front digits,
      length-append {A = ℕ} (front ++ replicate padding 0x30) digits,
      length-append {A = ℕ} front (replicate padding 0x30),
      length-append {A = ℕ} (replicate padding 0x20 ++ front) digits,
      length-append {A = ℕ} (replicate padding 0x20) front,
      length-replicate {A = ℕ} padding 0x20,
      length-replicate {A = ℕ} padding 0x30,
    )

-- For a precision of at most 16, on a stream with room, `print_unsigned_int` in base 16 prints the
-- layout of digits that say the number and are as many as the precision asks for.
pub print_unsigned_int_lem :
    (value : ℕ) (precision : Option ℕ) (prefix alpha : List ℕ) (digit : ℕ → ℕ) (flags : Flags)
    (min_width : ℕ) (f : StringFile)
    → IsAlphabet alpha digit
    → value < 2 ^ 64
    → default_precision precision ≤ 16
    → min_width + 16 + length prefix ≤ f.remaining
    → min_width + 16 + length prefix < 2 ^ 64
    → (digits : List ℕ) × (print_unsigned_int value precision prefix alpha flags min_width 16 f
        ≡ printed (layout flags prefix digits min_width) f)
      × (read_hex digit 0 digits ≡ value)
      × (default_precision precision ≤ length digits)
unfolding print_unsigned_int
print_unsigned_int_lem value precision prefix alpha digit flags min_width f alphabet word asked room
      small =
    let needed = needed_precision 4 value in
    let count : ℕ =
      if ltb (default_precision precision) needed then needed else default_precision precision in
    let enough : needed ≤ count = ground arith in
    let (digits, e, size, says) =
      radix_digits_lem alpha digit count value [] alphabet
        (needed_precision_lem value count word enough) in
    go digits (e ∙ append-nil digits) size says
  where
    count : ℕ
    count =
        if ltb (default_precision precision) (needed_precision 4 value)
        then needed_precision 4 value
        else default_precision precision

    few : count ≤ 16
    few = ground arith

    short : leb count 16 ≡ true
    short = ground (arith, few)

    effective :
        (digits : List ℕ)
        → length digits ≡ count
        → (if flags.pound then count + length prefix else count)
          ≡ length (prefix_of flags prefix) + length digits
    effective digits size = ground (arith, size)

    go :
        (digits : List ℕ)
        → radix_digits 4 alpha count value [] ≡ digits
        → length digits ≡ count
        → read_hex digit 0 digits ≡ value
        → (digits : List ℕ) × (print_unsigned_int value precision prefix alpha flags min_width 16 f
            ≡ printed (layout flags prefix digits min_width) f)
          × (read_hex digit 0 digits ≡ value)
          × (default_precision precision ≤ length digits)
    go digits e size says = (
      digits,
      rw (bits_16, short, e, effective digits size, print_unsigned_int)
          (ap
              (print_short digits flags prefix min_width
                (length (prefix_of flags prefix) + length digits))
              (write_nil f)
            ∙ print_short_lem digits prefix flags min_width f (omega (arith, size, few, room))
                (omega (arith, size, few, small))
            ∙ write_start (layout flags prefix digits min_width) f
                (omega (arith, length-layout flags prefix digits min_width, size, few, room))
                (omega (arith, length-layout flags prefix digits min_width, size, few, small))),
      says,
      ground (arith, size),
    )
