-- ===== src/Stdio/Sign.antt =====
-- `print_dec_int` with a sign.
use xinix.Base.{
  ℕ, zero, suc, ◌+◌, ◌-◌, ◌^◌, ◌≤◌, ◌<◌, ◌≡◌, refl, ap, ◌∙◌, arith, Bool, true, false, Option, some,
  List, [], ◌∷◌, ◌++◌, ltb, leb, if◌then◌else◌, take, replicate, length-replicate,
}
use xinix.Stdio.{
  StringFile, Printing, Flags, start_printing, write_checked, zeros, print_dec_int, sign_of,
  magnitude, default_precision,
}
use xinix.Stdio.Chunks.{write_checked_short, write_checked_returned}
use xinix.Stdio.Decimal.{dec_digits_lem, zeros_lem}

take-replicate : (m n b : ℕ) → m ≤ n → take m (replicate n b) ≡ replicate m b
take-replicate zero n b h = refl
take-replicate (suc m) zero b h = absurd (omega arith)
take-replicate (suc m) (suc n) b h = ap (λ t. b ∷ t) (take-replicate m n b (omega arith))

abbrev pub full_of_zeros : StringFile → Printing
full_of_zeros f = record {
  bytes_printed = f.remaining;
  stream = record { contents = f.contents ++ replicate f.remaining 0x30; remaining = 0 };
  returned = true;
}

zeros_short :
    (many : ℕ) (f : StringFile)
    → f.remaining < many
    → many < 2 ^ 64
    → zeros many (start_printing f) ≡ full_of_zeros f
zeros_short many f short small =
    zeros_lem many (start_printing f) (omega arith)
    ∙ write_checked_short (replicate many 0x30) (start_printing f) refl
        (omega (arith, length-replicate {A = ℕ} many 0x30))
        (omega (arith, length-replicate {A = ℕ} many 0x30))
    ∙ ground (arith, take-replicate f.remaining many 0x30 (omega arith))

-- What follows a return writes nothing.
stopped_lem :
    (text sign : List ℕ) (extra : ℕ) (f : StringFile)
    → f.remaining + extra < 2 ^ 64
    → write_checked text (zeros extra (write_checked sign (full_of_zeros f))) ≡ full_of_zeros f
stopped_lem text sign extra f small =
    rw
      (
        write_checked_returned sign (full_of_zeros f) refl,
        zeros_lem extra (full_of_zeros f) small,
        write_checked_returned (replicate extra 0x30) (full_of_zeros f) refl,
      )
      (write_checked_returned text (full_of_zeros f) refl)

-- With a sign and a width that asks for no padding, `print_dec_int` fills a stream of fewer than
-- 2^32 - 1 bytes with zeros, and neither the sign nor the number gets there.
pub print_dec_int_sign :
    (value : ℕ) (precision : Option ℕ) (is_signed : Bool) (flags : Flags) (min_width c : ℕ)
    (f : StringFile)
    → value < 2 ^ 64
    → sign_of value is_signed flags ≡ c ∷ []
    → flags.zero_pad ≡ false
    → min_width ≤ default_precision precision
    → default_precision precision < 2 ^ 31
    → f.remaining < 2 ^ 32 - 1
    → print_dec_int value precision is_signed flags min_width f ≡ some (full_of_zeros f)
unfolding print_dec_int
print_dec_int_sign value precision is_signed flags min_width c f word signed unpadded narrow asked
      full =
    let real : ℕ =
      if leb (default_precision precision) 20 then default_precision precision else 20 in
    let (digits, e, says, digit, enough, bound) =
      dec_digits_lem 20 (magnitude value is_signed) real [] (ground arith) (ground arith) in
    let wide : ltb (default_precision precision) min_width ≡ false = ground (arith, narrow) in
    rw (signed, unpadded, wide, e, zeros_short (2 ^ 32 - 1) f full (omega arith), print_dec_int)
      (ap some
        (stopped_lem (digits ++ []) (c ∷ []) (default_precision precision - real) f (omega arith)))
