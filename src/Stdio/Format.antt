-- ===== src/Stdio/Format.antt =====
-- `vfprintf` of kernel/src/common/stdio.c: the format, its arguments, and the conversions.
use mathlib.Core.Option
use xinix.Base.{
  ℕ, ◌+◌, ◌-◌, ◌*◌, ◌%◌, ◌^◌, Bool, ◌&&◌, ◌||◌, not, true, Option, none, some, List, [], ◌∷◌, ◌==◌,
  ltb, leb, if◌then◌else◌, u32, u64,
}
use xinix.Stdio.{Flags}

-- An argument of the call
pub data Arg : Type 0 where
  word : ℕ → Arg
  text : List ℕ → Arg
  slice : List ℕ → ℕ → Arg
  uuid : ℕ → ℕ → Arg

pub data LengthSpec : Type 0 where
  no_len half_half_len half_len long_len long_long_len intmax_len size_len ptrdiff_len minwidth_len
        fast_len long_double_len dec32_len dec64_len dec128_len :
      LengthSpec

-- The width of a `va_arg` by the length; `fast32_bits` is that of `int_fast32_t`.
unfoldable pub arg_bits : ℕ → LengthSpec → ℕ → ℕ
arg_bits fast32_bits long_len extra = 64
arg_bits fast32_bits long_long_len extra = 64
arg_bits fast32_bits intmax_len extra = 64
arg_bits fast32_bits size_len extra = 64
arg_bits fast32_bits ptrdiff_len extra = 64
arg_bits fast32_bits minwidth_len extra = if extra == 64 then 64 else 32
arg_bits fast32_bits fast_len extra = if extra == 64 then 64 else fast32_bits
arg_bits fast32_bits no_len extra = 32
arg_bits fast32_bits half_half_len extra = 32
arg_bits fast32_bits half_len extra = 32
arg_bits fast32_bits long_double_len extra = 32
arg_bits fast32_bits dec32_len extra = 32
arg_bits fast32_bits dec64_len extra = 32
arg_bits fast32_bits dec128_len extra = 32

-- `read_int` and `read_unsigned_int`: an argument word, widened to 64 bits
unfoldable pub read_int : ℕ → LengthSpec → ℕ → ℕ → ℕ
read_int fast32_bits len extra w =
    let low = w % 2 ^ 32 in
    if arg_bits fast32_bits len extra == 32
    then (if ltb low (2 ^ 31) then low else low + (2 ^ 64 - 2 ^ 32))
    else u64 w

unfoldable pub read_unsigned_int : ℕ → LengthSpec → ℕ → ℕ → ℕ
read_unsigned_int fast32_bits len extra w =
    if arg_bits fast32_bits len extra == 32 then u32 w else u64 w

abbrev is_digit : ℕ → Bool
is_digit c = leb 0x30 c && leb c 0x39

-- The literal text before the next conversion, and the rest
unfoldable pub literal : List ℕ → List ℕ × List ℕ
literal [] = ([], [])
literal (c ∷ cs) =
    let (before, rest) = literal cs in if c == 0x25 then ([], c ∷ cs) else (c ∷ before, rest)

unfoldable pub parse_flags : Flags → List ℕ → Flags × List ℕ
parse_flags flags [] = (flags, [])
parse_flags flags (c ∷ cs) =
    let next =
      if c == 0x2d
      then record flags { minus = true }
      else if c == 0x2b
      then record flags { plus = true }
      else if c == 0x20
      then record flags { space = true }
      else if c == 0x23
      then record flags { pound = true }
      else record flags { zero_pad = true } in
    let more = parse_flags next cs in
    if c == 0x2d || (c == 0x2b || (c == 0x20 || (c == 0x23 || c == 0x30)))
    then more
    else (flags, c ∷ cs)

-- A decimal number in the format
unfoldable pub parse_number : ℕ → List ℕ → ℕ × List ℕ
parse_number value [] = (value, [])
parse_number value (c ∷ cs) =
    let more = parse_number (value * 10 + (c - 0x30)) cs in
    if is_digit c then more else (value, c ∷ cs)

-- The character under the cursor; the end mark behind the last one
abbrev head_or_end : List ℕ → ℕ
head_or_end [] = 0
head_or_end (c ∷ cs) = c

abbrev tail_or_end : List ℕ → List ℕ
tail_or_end [] = []
tail_or_end (c ∷ cs) = cs

-- What a conversion says, and the cursor and the arguments behind it
pub record Spec : Type 0 where
  pub flags : Flags
  pub min_width : ℕ
  pub precision : Option ℕ
  pub length_spec : LengthSpec
  pub length_extra : ℕ
  pub cursor : List ℕ
  pub args : List Arg

-- `va_arg` of an `int`; `none` without such an argument
unfoldable pub next_word : List Arg → Option (ℕ × List Arg)
next_word [] = none
next_word (word w ∷ args) = some (w, args)
next_word (text s ∷ args) = none
next_word (slice s n ∷ args) = none
next_word (uuid hi lo ∷ args) = none

-- The width: a `*` takes an argument, and the cursor stays on it.
unfoldable pub parse_width : List ℕ → List Arg → Option (ℕ × List ℕ × List Arg)
parse_width cs args =
    let (value, rest) = parse_number 0 cs in
    if head_or_end cs == 0x2a
    then Option.map (λ wa. (u32 wa.0, cs, wa.1)) (next_word args)
    else some (value, rest, args)

unfoldable pub parse_precision : List ℕ → List Arg → Option (Option ℕ × List ℕ × List Arg)
parse_precision cs args =
    let behind = tail_or_end cs in
    let (value, rest) = parse_number 0 behind in
    if not (head_or_end cs == 0x2e)
    then some (none, cs, args)
    else if head_or_end behind == 0x2a
    then Option.map (λ wa. (some (u32 wa.0), behind, wa.1)) (next_word args)
    else some (some value, rest, args)

-- A letter of a length, which a second letter changes
abbrev doubled : ℕ → LengthSpec → LengthSpec → List ℕ → LengthSpec × ℕ × List ℕ
doubled letter once twice cs =
    if head_or_end cs == letter then (twice, 0, tail_or_end cs) else (once, 0, cs)

unfoldable pub parse_length : List ℕ → LengthSpec × ℕ × List ℕ
parse_length [] = (no_len, 0, [])
parse_length (c ∷ cs) =
    let fast = head_or_end cs == 0x66 in
    let (extra, rest) = parse_number 0 (if fast then tail_or_end cs else cs) in
    if c == 0x68
    then doubled 0x68 half_len half_half_len cs
    else if c == 0x6c
    then doubled 0x6c long_len long_long_len cs
    else if c == 0x6a
    then (intmax_len, 0, cs)
    else if c == 0x7a
    then (size_len, 0, cs)
    else if c == 0x74
    then (ptrdiff_len, 0, cs)
    else if c == 0x77
    then (if fast then fast_len else minwidth_len, extra, rest)
    else if c == 0x4c
    then (long_double_len, 0, cs)
    else if c == 0x48
    then (dec32_len, 0, cs)
    else if c == 0x44
    then doubled 0x44 dec64_len dec128_len cs
    else (no_len, 0, c ∷ cs)
