-- ===== src/Stdio/Convert.antt =====
-- The conversions of `vfprintf`, kernel/src/common/stdio.c.
use mathlib.Core.Option
use xinix.Base.{
  ◌>>=◌, ℕ, zero, suc, ◌+◌, ◌%◌, ◌^◌, Bool, ◌||◌, true, false, Option, none, some, List, [], ◌∷◌,
  ◌==◌, ltb, if◌then◌else◌, bit_and, u64, sub64, ◌>>>◌, length, take, ascii,
}
use xinix.Stdio.{
  StringFile, Printing, Flags, start_printing, write_checked, print_dec_int, print_unsigned_int,
  upper_hex, lower_hex, oct, bin, close_string_file,
}
use xinix.Stdio.Errors.{sysresult_name, sysresult_describe}
use xinix.Stdio.Format.{
  Arg, text, slice, uuid, no_len, long_len, read_int, read_unsigned_int, literal, parse_flags, Spec,
  next_word, parse_width, parse_precision, parse_length,
}

-- `fast32_bits` is the width of `int_fast32_t`; `fallen` is what a call gives whose body runs to its
-- end without a return.
-- How the loop of `vfprintf` ends: with what is printed, or with undefined behaviour as `none`; or not
-- within the conversions that may follow.
pub data Ending : Type 0 where
  ended : Option Printing → Ending
  unfinished : Ending

module _ (fast32_bits fallen : ℕ) where
  abbrev pub value_of : Printing → ℕ
  value_of r = if r.returned then r.bytes_printed else fallen

  -- `bytes_printed = print_unsigned_int(...)`
  abbrev assign : Printing → Printing → Printing
  assign p r = record { bytes_printed = value_of r; stream = r.stream; returned = false }

  -- `bytes_printed += print_unsigned_int(...)`
  unfoldable pub add_hex : ℕ → ℕ → Printing → Printing
  add_hex value digits p =
      let zero_flag : Flags = record {
        minus = false;
        plus = false;
        space = false;
        pound = false;
        zero_pad = true;
      } in
      let r = print_unsigned_int value (some digits) [] upper_hex zero_flag 0 16 p.stream in
      if p.returned then p else record {
        bytes_printed = u64 (p.bytes_printed + value_of r);
        stream = r.stream;
        returned = false;
      }

  -- The conversion `U`
  unfoldable pub print_uuid : ℕ → ℕ → Flags → Printing → Printing
  print_uuid uuid_hi uuid_lo flags p =
      let dash = ascii "-" in
      let opened = if flags.pound then write_checked (ascii "{") p else p in
      let printed = add_hex (bit_and uuid_lo 0xffff_ffff_ffff) 12 (
        write_checked dash (
          add_hex (uuid_lo >>> 48) 4 (
            write_checked dash (
              add_hex (bit_and uuid_hi 0xffff) 4 (
                write_checked dash (
                  add_hex (bit_and (uuid_hi >>> 16) 0xffff) 4
                    (write_checked dash (add_hex (uuid_hi >>> 32) 8 opened)))))))) in
      if flags.pound then write_checked dash printed else printed

  -- The bytes of a string up to the precision
  abbrev cut : Option ℕ → List ℕ → List ℕ
  cut none s = s
  cut (some precision) s = take precision s

  -- The unsigned conversions: prefix, digits and radix by the letter
  abbrev unsigned_style : ℕ → List ℕ × List ℕ × ℕ
  unsigned_style c =
      if c == 0x58
      then (ascii "0X", upper_hex, 16)
      else if c == 0x78
      then (ascii "0x", lower_hex, 16)
      else if c == 0x62
      then (ascii "0b", bin, 2)
      else if c == 0x42
      then (ascii "0B", bin, 2)
      else (ascii "0", oct, 2)

  -- The conversions that take a word
  unfoldable pub convert_word : ℕ → Spec → Printing → ℕ → Option Printing
  convert_word c s p w =
      let decimal : ℕ → Bool → Option Printing = λ value is_signed.
        Option.map
          (λ r. record { bytes_printed = r.bytes_printed; stream = r.stream; returned = false })
          (print_dec_int value s.precision is_signed s.flags s.min_width p.stream) in
      let (prefix, alpha, radix) = unsigned_style c in
      let len =
        if c == 0x72 then elim s.length_spec [ no_len ↦ long_len | l ↦ l ] else s.length_spec in
      let signed = read_int fast32_bits len s.length_extra w in
      let unsigned = read_unsigned_int fast32_bits len s.length_extra w in
      let pointer : Flags = record s.flags { pound = true } in
      let known = if s.flags.pound then sysresult_name signed else sysresult_describe signed in
      if c == 0x63
      then some (write_checked (w % 2 ^ 8 ∷ []) p)
      else if c == 0x64 || c == 0x69
      then decimal signed true
      else if c == 0x75
      then decimal unsigned false
      else if c == 0x70
      then (if u64 w == 0
          then some (write_checked (ascii "(null)") p)
          else some (
              assign p (
                print_unsigned_int (u64 w) none (ascii "0x") upper_hex pointer s.min_width 16
                  p.stream)))
      else if c == 0x72
      then elim known [
        | none ↦
            some (
              assign p
                (print_unsigned_int signed none [] upper_hex s.flags s.min_width 16 p.stream))
        | some name ↦ some (write_checked (cut s.precision name) p)
      ]
      else some (
          assign p (
            print_unsigned_int unsigned s.precision prefix alpha s.flags s.min_width radix
              p.stream))

  abbrev takes_word : ℕ → Bool
  takes_word c =
      c == 0x63
      || (c == 0x64
          || (c == 0x69
              || (c == 0x75
                  || (c == 0x58
                      || (c == 0x78
                          || (c == 0x62
                              || (c == 0x42 || (c == 0x6f || (c == 0x70 || c == 0x72)))))))))

  abbrev print_text : Spec → Printing → List Arg → Option (Printing × List Arg)
  print_text s p (text t ∷ args) = some (write_checked (cut s.precision t) p, args)
  print_text s p _ = none

  abbrev print_slice : Spec → Printing → List Arg → Option (Printing × List Arg)
  print_slice s p (slice t len ∷ args) = some (write_checked (cut s.precision (take len t)) p, args)
  print_slice s p _ = none

  abbrev print_uuid_arg : Spec → Printing → List Arg → Option (Printing × List Arg)
  print_uuid_arg s p (uuid hi lo ∷ args) = some (print_uuid hi lo s.flags p, args)
  print_uuid_arg s p _ = none

  -- The switch on the conversion; `none` is a missing or a different argument.
  unfoldable pub convert : ℕ → Spec → Printing → Option (Printing × List Arg)
  convert c s p =
      let worded : Option (Printing × List Arg) = elim (next_word s.args) [
        | none ↦ none
        | some wa ↦ Option.map (λ q. (q, wa.1)) (convert_word c s p wa.0)
      ] in
      if takes_word c
      then worded
      else if c == 0x73
      then print_text s p s.args
      else if c == 0x53
      then print_slice s p s.args
      else if c == 0x55
      then print_uuid_arg s p s.args
      else some (write_checked (ascii "TODO") p, s.args)

  -- A conversion specification, from behind the `%`
  unfoldable pub parse_spec : List ℕ → List Arg → Option Spec
  parse_spec cs args = do
    let (flags, at_width) =
        parse_flags
          (record { minus = false; plus = false; space = false; pound = false; zero_pad = false })
          cs
    (min_width, at_precision, args1) ← parse_width at_width args
    (precision, at_length, args2) ← parse_precision at_precision args1
    let (length_spec, extra, at_letter) = parse_length at_length
    some (record {
      flags = flags;
      min_width = min_width;
      precision = precision;
      length_spec = length_spec;
      length_extra = extra;
      cursor = at_letter;
      args = args2;
    })

  -- One conversion, from behind the `%`: what is printed, and the format and the arguments behind it.
  -- A format that ends inside a conversion is read beyond its end mark: `none`.
  unfoldable pub conversion : List ℕ → List Arg → Printing → Option (Printing × List ℕ × List Arg)
  conversion cs args p = elim (parse_spec cs args) [
    | none ↦ none
    | some s ↦ elim s.cursor [
      | [] ↦ none
      | c ∷ after ↦ Option.map (λ done. (done.0, after, done.1)) (convert c s p)
    ]
  ]

  -- `vfprintf`, by the number of conversions that may follow
  unfoldable pub vfprintf_from : ℕ → List ℕ → List Arg → Printing → Ending
  vfprintf_from zero format args p = unfinished
  vfprintf_from (suc more) format args p =
      let (before, rest) = literal format in
      let q = if ltb 0 (length before) then write_checked before p else p in
      if q.returned then ended (some q) else elim rest [
        | [] ↦ ended (some q)
        | percent ∷ cs ↦ elim (conversion cs args q) [
          | none ↦ ended none
          | some r ↦ if r.0.returned then ended (some r.0) else vfprintf_from more r.1 r.2 r.0
        ]
      ]

  -- `none` is undefined behaviour: as many conversions as the format has characters are never used up.
  unfoldable pub vfprintf : StringFile → List ℕ → List Arg → Option Printing
  vfprintf stream format args =
      elim (vfprintf_from (suc (length format)) format args (start_printing stream)) [
        | ended r ↦ r
        | unfinished ↦ none
      ]

  -- `vsnprintf`: the result and the buffer's bytes
  unfoldable pub vsnprintf : ℕ → List ℕ → List Arg → Option (ℕ × List ℕ)
  vsnprintf bufsz format args =
      Option.map (λ p. (p.bytes_printed % 2 ^ 32, close_string_file p.stream))
        (vfprintf (record { contents = []; remaining = sub64 bufsz 1 }) format args)
