-- ===== src/Stdio/Long.antt =====
-- `print_unsigned_int` beyond 16 digits.
use xinix.Base.{
  ℕ, zero, suc, ◌+◌, ◌-◌, ◌/◌, ◌%◌, ◌^◌, ◌≤◌, ◌<◌, ◌≡◌, refl, sym, ap, ◌∙◌, arith, false, Option,
  List, [], ◌∷◌, ◌++◌, ltb, leb, if◌then◌else◌, length, take, bit_and, get_or, ◌>>>◌, length-append,
}
use xinix.Stdio.{
  StringFile, Flags, radix_digits, leading_zeros, trailing_zeros, needed_precision,
  print_unsigned_int, default_precision,
}
use xinix.Stdio.Radix.{leading_zeros_lem}
use native.Mathlib.Nat.{pow-suc, pow-le-pow_right}
use mathlib.Core.List.{append_assoc}
use native.Mathlib.Decide.{dec_le}

-- The loop of the long case fills one place more than is printed: the lowest digit is lost.
split_digits :
    (radix_bits : ℕ) (alpha : List ℕ) (n value : ℕ) (digits : List ℕ)
    → (text : List ℕ) × (radix_digits radix_bits alpha n value digits ≡ text ++ digits)
      × (radix_digits radix_bits alpha n value [] ≡ text)
      × (length text ≡ n)
unfolding radix_digits
split_digits radix_bits alpha zero value digits = ([], refl, refl, refl)
split_digits radix_bits alpha (suc n) value digits =
    let c = get_or alpha (bit_and value (2 ^ radix_bits - 1)) 0 in
    let (text, e, plain, size) =
      split_digits radix_bits alpha n (value >>> radix_bits) (c ∷ digits) in
    let (text1, e1, plain1, size1) =
      split_digits radix_bits alpha n (value >>> radix_bits) (c ∷ []) in
    let same : text ≡ text1 = sym plain ∙ plain1 in
    (
      text ++ c ∷ [],
      e ∙ sym (append_assoc text (c ∷ []) digits),
      e1 ∙ ap (λ t. t ++ c ∷ []) (sym same),
      omega (arith, length-append text (c ∷ []), size),
    )

take-append : (text digits : List ℕ) (n : ℕ) → length text ≡ n → take n (text ++ digits) ≡ text
take-append [] digits zero e = refl
take-append [] digits (suc n) e = absurd (omega arith)
take-append (x ∷ text) digits zero e = absurd (omega arith)
take-append (x ∷ text) digits (suc n) e = ap (λ t. x ∷ t) (take-append text digits n (omega arith))

take-radix_digits :
    (radix_bits : ℕ) (alpha : List ℕ) (n value : ℕ)
    → take n (radix_digits radix_bits alpha (suc n) value [])
      ≡ radix_digits radix_bits alpha n (value >>> radix_bits) []
unfolding radix_digits
take-radix_digits radix_bits alpha n value =
    let c = get_or alpha (bit_and value (2 ^ radix_bits - 1)) 0 in
    let (text, e, plain, size) = split_digits radix_bits alpha n (value >>> radix_bits) (c ∷ []) in
    ap (take n) e ∙ take-append text (c ∷ []) n size ∙ sym plain

leading_zeros_even :
    (w value : ℕ) → value % 2 ≡ 0 → 2 ≤ value → leading_zeros w (value + 1) ≡ leading_zeros w value
unfolding leading_zeros
leading_zeros_even zero value even large = refl
leading_zeros_even (suc zero) value even large = ground arith
leading_zeros_even (suc (suc w)) value even large =
    ground (arith, pow-suc 2 w, leading_zeros_even (suc w) value even large)

bits_2 : trailing_zeros 32 2 ≡ 1
unfolding trailing_zeros
bits_2 = refl

needs_more : (value : ℕ) → value < 2 ^ 64 → 2 ^ 16 ≤ value → 16 < needed_precision 1 value
needs_more value word large =
    let (bound, rest) = leading_zeros_lem 64 value word in
    elim (dec_le (64 - leading_zeros 64 value) 16) [
      | no many ↦ omega (arith, many)
      | yes few ↦ absurd (omega (arith, rest, large, pow-le-pow_right {n = 2} (omega arith) few))
    ]

-- In base 2, an even number of more than 16 digits and its successor are printed alike.
pub print_unsigned_int_binary :
    (value : ℕ) (precision : Option ℕ) (prefix alpha : List ℕ) (flags : Flags) (min_width : ℕ)
    (f : StringFile)
    → value + 1 < 2 ^ 64
    → value % 2 ≡ 0
    → 2 ^ 16 ≤ value
    → print_unsigned_int (value + 1) precision prefix alpha flags min_width 2 f
      ≡ print_unsigned_int value precision prefix alpha flags min_width 2 f
unfolding print_unsigned_int
print_unsigned_int_binary value precision prefix alpha flags min_width f word even large =
    let more : 16 < needed_precision 1 value = needs_more value (omega arith) large in
    let long : leb
          (if ltb (default_precision precision) (needed_precision 1 value)
            then needed_precision 1 value
            else default_precision precision)
          16
        ≡ false =
      ground (arith, more) in
    let same : take 64 (radix_digits 1 alpha 65 (value + 1) [])
        ≡ take 64 (radix_digits 1 alpha 65 value []) =
      take-radix_digits 1 alpha 64 (value + 1)
      ∙ ap (λ v. radix_digits 1 alpha 64 v []) {x = (value + 1) / 2} {y = value / 2} (omega arith)
      ∙ sym (take-radix_digits 1 alpha 64 value) in
    rw (leading_zeros_even 64 value even (omega arith), bits_2, long, same, print_unsigned_int) refl
