-- ===== src/Stdio/Examples.antt =====
-- Formatted printing at inputs.
use xinix.Stdio.{
  Printing, StringFile, Flags, start_printing, print_dec_int, print_unsigned_int, upper_hex,
  dec_digits, write_checked, write_chunks, write_string_file, close_string_file,
}
use xinix.Base.{
  Option, ℕ, ◌≤◌, ◌≡◌, refl, none, some, List, [], ◌∷◌, ◌++◌, arith, ascii, holds_below,
  holds_below_lem, ◌==◌, true, false, get_or, length,
}
use xinix.Stdio.Format.{
  word, literal, parse_flags, parse_number, parse_width, parse_precision, parse_length, next_word,
  arg_bits, read_int, read_unsigned_int,
}
use xinix.Stdio.Convert.{
  ended, vfprintf_from, vfprintf, vsnprintf, conversion, convert, convert_word, parse_spec,
}
use xinix.Stdio.Decimal.{AreDigits, read_dec, printed, print_dec_int_lem}
use xinix.Stdio.Radix.{IsAlphabet, hex_value, read_hex}
use xinix.Stdio.Layout.{layout}
use xinix.Stdio.Hex.{print_unsigned_int_lem}
use xinix.Stdio.Fuel.{vfprintf_from_enough}

abbrev plain : Flags
plain = record { minus = false; plus = false; space = false; pound = false; zero_pad = false }

abbrev hashed : Flags
hashed = record plain { pound = true; zero_pad = true }

abbrev page : StringFile
page = record { contents = ascii "at "; remaining = 4096 }

print_dec_int_lem_example :
    (t : List ℕ) × (print_dec_int 1234 (some 6) false plain 8 page ≡ some (printed t page))
    × (read_dec 0 t ≡ 1234)
    × AreDigits t
    × (6 ≤ length t)
    × (8 ≤ length t)
print_dec_int_lem_example =
    print_dec_int_lem 1234 (some 6) false plain 8 page (omega arith) refl (omega arith)
      (omega arith)

upper_table : holds_below (λ k. hex_value (get_or upper_hex k 0) == k) 16 ≡ true
unfolding holds_below hex_value
upper_table = refl

upper_hex-IsAlphabet : IsAlphabet upper_hex hex_value
upper_hex-IsAlphabet = record {
  reads = λ k small. ground (arith, holds_below_lem _ 16 {v = k} small upper_table);
}

print_unsigned_int_lem_example :
    (digits : List ℕ) × (print_unsigned_int 0xbeef none (ascii "0X") upper_hex hashed 10 16 page
      ≡ printed (layout hashed (ascii "0X") digits 10) page)
    × (read_hex hex_value 0 digits ≡ 0xbeef)
    × (1 ≤ length digits)
print_unsigned_int_lem_example =
    print_unsigned_int_lem 0xbeef none (ascii "0X") upper_hex hex_value hashed 10 page
      upper_hex-IsAlphabet (omega arith) (omega arith) (omega arith) (omega arith)

vfprintf_from_enough_example :
    (r : Option Printing) × (vfprintf_from 64 0 9
        (ascii "%08x=%u")
        (word 7 ∷ word 8 ∷ [])
        (start_printing page)
      ≡ ended r)
    × (vfprintf_from 64 0 8 (ascii "%08x=%u") (word 7 ∷ word 8 ∷ []) (start_printing page)
        ≡ ended r)
vfprintf_from_enough_example =
    vfprintf_from_enough 64 0 9 8 (ascii "%08x=%u") (word 7 ∷ word 8 ∷ []) (start_printing page)
      (omega arith) (omega arith)

-- A decimal conversion replaces the count of what was printed before it.
counted : vsnprintf 64 0 100 (ascii "abc%u") (word 42 ∷ []) ≡ some (2, ascii "abc42" ++ 0 ∷ [])
unfolding vsnprintf vfprintf vfprintf_from conversion convert convert_word parse_spec literal
    parse_flags parse_number parse_width parse_precision parse_length next_word arg_bits
    read_unsigned_int read_int print_dec_int dec_digits write_checked write_chunks write_string_file
    close_string_file
counted = refl
