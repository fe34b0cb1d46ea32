-- ===== src/Stdio.antt =====
-- Formatted printing: kernel/src/common/stdio.c, up to the printers of integers. The format itself is
-- read in Stdio.Format. A stream is a string file, the one kind of FILE that stdio.c makes.
pub mod Format
pub mod Errors
pub mod Convert
pub mod Chunks
pub mod Decimal
pub mod Sign
pub mod Radix
pub mod Layout
pub mod Hex
pub mod Long
pub mod Fuel
mod Examples
use mathlib.Core.Option
use xinix.Base.{
  ℕ, zero, suc, ◌+◌, ◌-◌, ◌*◌, ◌/◌, ◌%◌, ◌^◌, Bool, ◌&&◌, ◌||◌, not, true, false, Option, none,
  some, List, [], ◌∷◌, ◌++◌, ◌==◌, ltb, leb, if◌then◌else◌, bit_and, u32, u64, sub32, sub64, ◌>>>◌,
  length, take, replicate, get_or, ascii, min,
}

-- `string_file_data`: what was written to the buffer, and the room that is left
pub record StringFile : Type 0 where
  pub contents : List ℕ
  pub remaining : ℕ

-- `write_string_file`, the length that it gives first
pub write_string_file : StringFile → List ℕ → ℕ × StringFile
write_string_file f bytes =
    let len = if ltb f.remaining (length bytes) then f.remaining else length bytes in
    (len, record { contents = f.contents ++ take len bytes; remaining = f.remaining - len })

-- `close_string_file` writes the end mark.
pub close_string_file : StringFile → List ℕ
close_string_file f = f.contents ++ 0 ∷ []

-- A printing function between its start and its return: `bytes_printed`, the stream, and whether it
-- has returned at a short write.
pub record Printing : Type 0 where
  pub bytes_printed : ℕ
  pub stream : StringFile
  pub returned : Bool

abbrev pub start_printing : StringFile → Printing
start_printing f = record { bytes_printed = 0; stream = f; returned = false }

-- `WRITE_CHECKED`
pub write_checked : List ℕ → Printing → Printing
write_checked bytes p =
    let (written, f) = write_string_file p.stream bytes in
    if p.returned then p else record {
      bytes_printed = u64 (p.bytes_printed + written);
      stream = f;
      returned = not (written == length bytes);
    }

-- A loop that writes `count` equal bytes, 64 at a time, with `count / 64` as fuel.
pub write_chunks : ℕ → ℕ → ℕ → Printing → Printing
write_chunks zero count byte p = write_checked (replicate count byte) p
write_chunks (suc fuel) count byte p =
    let rest = write_chunks fuel (count - 64) byte (write_checked (replicate 64 byte) p) in
    if ltb 64 count then rest else write_checked (replicate count byte) p

abbrev pub zeros : ℕ → Printing → Printing
zeros count = write_chunks (count / 64) count 0x30

-- `write_rep`, and its caller's return when it gives a number other than 0
pub write_rep : ℕ → ℕ → Printing → Printing
write_rep count byte p =
    let q = write_chunks (count / 64) count byte p in
    if p.returned then p else record q { returned = q.returned && not (q.bytes_printed == 0) }

-- The flags of a conversion
pub record Flags : Type 0 where
  pub minus : Bool
  pub plus : Bool
  pub space : Bool
  pub pound : Bool
  pub zero_pad : Bool

-- The loop of `print_dec_int`, which fills its buffer from the end; `none` is a write before the
-- buffer.
pub dec_digits : ℕ → ℕ → ℕ → List ℕ → Option (List ℕ)
dec_digits zero value real_precision digits =
    if not (value == 0) || ltb 0 real_precision then none else some digits
dec_digits (suc room) value real_precision digits =
    let more = dec_digits room (value / 10) (real_precision - 1) ((value % 10 + 0x30) ∷ digits) in
    if not (value == 0) || ltb 0 real_precision then more else some digits

abbrev pub sign_bit : ℕ
sign_bit = 0x8000_0000_0000_0000

abbrev pub sign_of : ℕ → Bool → Flags → List ℕ
sign_of value is_signed flags =
    if is_signed && not (bit_and value sign_bit == 0)
    then 0x2d ∷ []
    else if flags.plus
    then 0x2b ∷ []
    else []

abbrev pub magnitude : ℕ → Bool → ℕ
magnitude value is_signed =
    if is_signed && not (bit_and value sign_bit == 0) then sub64 0 value else value

abbrev pub default_precision : Option ℕ → ℕ
default_precision none = 1
default_precision (some precision) = precision

-- `print_dec_int`. The spaces and the extra precision are 32-bit words; a sign takes one space, also
-- from none.
pub print_dec_int : ℕ → Option ℕ → Bool → Flags → ℕ → StringFile → Option Printing
print_dec_int value opt_precision is_signed flags min_width stream =
    let precision = default_precision opt_precision in
    let sign = sign_of value is_signed flags in
    let real_precision = if leb precision 20 then precision else 20 in
    let digits = dec_digits 20 (magnitude value is_signed) real_precision [] in
    let spaces0 = if ltb precision min_width then min_width - precision else 0 in
    let extra_precision =
      if flags.zero_pad
      then u32 (precision - real_precision + spaces0)
      else precision - real_precision in
    let spaces1 = if flags.zero_pad then 0 else spaces0 in
    let spaces = if ltb 0 (length sign) then sub32 spaces1 1 else spaces1 in
    Option.map
      (λ text. write_checked text (
        zeros extra_precision (
          if ltb 0 (length sign)
          then write_checked sign (zeros spaces (start_printing stream))
          else zeros spaces (start_printing stream))))
      digits

-- `stdc_leading_zeros` of the lowest `w` bits, and `stdc_trailing_zeros` of a radix
pub leading_zeros : ℕ → ℕ → ℕ
leading_zeros zero value = 0
leading_zeros (suc w) value = if ltb value (2 ^ w) then suc (leading_zeros w value) else 0

pub trailing_zeros : ℕ → ℕ → ℕ
trailing_zeros zero value = 0
trailing_zeros (suc w) value = if value % 2 == 0 then suc (trailing_zeros w (value / 2)) else 0

-- A loop of `print_unsigned_int`, which fills the buffer from an index down
pub radix_digits : ℕ → List ℕ → ℕ → ℕ → List ℕ → List ℕ
radix_digits radix_bits alpha zero value digits = digits
radix_digits radix_bits alpha (suc idx) value digits =
    radix_digits radix_bits alpha idx (value >>> radix_bits)
      (get_or alpha (bit_and value (2 ^ radix_bits - 1)) 0 ∷ digits)

abbrev spaces_rep : ℕ → Printing → Printing
spaces_rep count = write_rep count 0x20

abbrev zeros_rep : ℕ → Printing → Printing
zeros_rep count = write_rep count 0x30

abbrev pub prefix_if : Bool → List ℕ → Printing → Printing
prefix_if pound prefix p = if pound then write_checked prefix p else p

-- `print_unsigned_int` up to 16 digits
pub print_short : List ℕ → Flags → List ℕ → ℕ → ℕ → Printing → Printing
print_short digits flags prefix min_width effective_width p =
    let padding = min_width - effective_width in
    if leb min_width effective_width
    then write_checked digits (prefix_if flags.pound prefix p)
    else if flags.minus
    then spaces_rep padding (write_checked digits (prefix_if flags.pound prefix p))
    else if flags.zero_pad
    then write_checked digits (zeros_rep padding (prefix_if flags.pound prefix p))
    else write_checked digits (prefix_if flags.pound prefix (spaces_rep padding p))

-- and beyond, where the first branch leaves the prefix out
pub print_long : List ℕ → ℕ → Flags → List ℕ → ℕ → ℕ → Printing → Printing
print_long digits number_of_zeros flags prefix min_width effective_width p =
    let padding = min_width - effective_width in
    if leb min_width effective_width
    then write_checked digits (zeros_rep number_of_zeros p)
    else if flags.minus
    then spaces_rep padding
        (write_checked digits (zeros_rep number_of_zeros (prefix_if flags.pound prefix p)))
    else if flags.zero_pad
    then write_checked digits
        (zeros_rep (number_of_zeros + padding) (prefix_if flags.pound prefix p))
    else write_checked digits
        (zeros_rep number_of_zeros (prefix_if flags.pound prefix (spaces_rep padding p)))

-- The digits that a value needs
abbrev pub needed_precision : ℕ → ℕ → ℕ
needed_precision radix_bits value = 8 * (8 / radix_bits) - leading_zeros 64 value / radix_bits

-- `print_unsigned_int`. A body that runs to its end returns nothing: only `returned` says whether
-- `bytes_printed` is its value.
pub print_unsigned_int : ℕ → Option ℕ → List ℕ → List ℕ → Flags → ℕ → ℕ → StringFile → Printing
print_unsigned_int value opt_precision prefix alpha flags min_width radix stream =
    let radix_bits = trailing_zeros 32 radix in
    let asked = default_precision opt_precision in
    let needed = needed_precision radix_bits value in
    let precision = if ltb asked needed then needed else asked in
    let effective_width = if flags.pound then precision + length prefix else precision in
    let buffersz = (63 + radix_bits) / radix_bits in
    if leb precision 16
    then print_short (radix_digits radix_bits alpha precision value []) flags prefix min_width
        effective_width (start_printing stream)
    else print_long (take buffersz (radix_digits radix_bits alpha (suc buffersz) value []))
        (precision - 16) flags prefix min_width effective_width (start_printing stream)

abbrev pub upper_hex : List ℕ
upper_hex = ascii "0123456789ABCDEF"

abbrev pub lower_hex : List ℕ
lower_hex = ascii "0123456789abcdef"

abbrev pub oct : List ℕ
oct = ascii "01234567"

abbrev pub bin : List ℕ
bin = ascii "01"
