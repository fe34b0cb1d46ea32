-- ===== src/Stdio/Radix.antt =====
-- `print_unsigned_int` in hexadecimal against the reading of numbers.
use xinix.Base.{
  ℕ, zero, suc, ◌+◌, ◌-◌, ◌*◌, ◌/◌, ◌%◌, ◌^◌, ◌≤◌, ◌<◌, ◌≡◌, refl, sym, ap, ◌∙◌, arith, true, false,
  List, [], ◌∷◌, ◌++◌, ltb, leb, if◌then◌else◌, length, length-append, bit_and, get_or,
}
use xinix.Base.Bits.{bit_and_low}
use xinix.Stdio.{radix_digits, leading_zeros, needed_precision}
use native.Mathlib.Nat.{div-lt_iff_lt-mul, pow-suc, pow-le-pow_right}
use native.Mathlib.Decide.{dec_le}
use mathlib.Core.List.{append_assoc}

-- The number that hexadecimal digits behind a number say, by the value of a digit
pub read_hex : (ℕ → ℕ) → ℕ → List ℕ → ℕ
read_hex digit before [] = before
read_hex digit before (c ∷ cs) = read_hex digit (before * 16 + digit c) cs

-- The value of a hexadecimal digit of either case
unfoldable pub hex_value : ℕ → ℕ
hex_value c = if leb c 0x39 then c - 0x30 else if leb c 0x46 then c - 0x37 else c - 0x57

-- An alphabet in which `digit` finds each digit's value
pub record IsAlphabet (alpha : List ℕ) (digit : ℕ → ℕ) : Type 0 where
  pub reads : (k : ℕ) → k < 16 → digit (get_or alpha k 0) ≡ k

read_hex-append :
    (digit : ℕ → ℕ) (before : ℕ) (xs ys : List ℕ)
    → read_hex digit before (xs ++ ys) ≡ read_hex digit (read_hex digit before xs) ys
unfolding read_hex
read_hex-append digit before [] ys = refl
read_hex-append digit before (x ∷ xs) ys = read_hex-append digit (before * 16 + digit x) xs ys

sixteenth : (value n : ℕ) → value < 16 ^ suc n → value < 16 ^ n * 16
sixteenth value n small = omega (arith, pow-suc 16 n)

-- As many digits as were asked for, which say the number that fits them.
pub radix_digits_lem :
    (alpha : List ℕ) (digit : ℕ → ℕ) (n value : ℕ) (digits : List ℕ)
    → IsAlphabet alpha digit
    → value < 16 ^ n
    → (text : List ℕ) × (radix_digits 4 alpha n value digits ≡ text ++ digits)
      × (length text ≡ n)
      × (read_hex digit 0 text ≡ value)
unfolding radix_digits read_hex
radix_digits_lem alpha digit zero value digits alphabet small = ([], refl, refl, omega arith)
radix_digits_lem alpha digit (suc n) value digits alphabet small =
    let c = get_or alpha (bit_and value 15) 0 in
    let below : value / 16 < 16 ^ n =
      (div-lt_iff_lt-mul (omega arith)).1 (sixteenth value n small) in
    let (text, e, size, says) =
      radix_digits_lem alpha digit n (value / 16) (c ∷ digits) alphabet below in
    let low : digit c ≡ value % 16 =
      ap (λ k. digit (get_or alpha k 0)) (bit_and_low 4 value)
      ∙ alphabet.reads (value % 16) (omega arith) in
    (
      text ++ c ∷ [],
      e ∙ sym (append_assoc text (c ∷ []) digits),
      omega (arith, length-append text (c ∷ []), size),
      omega (arith, read_hex-append digit 0 text (c ∷ []), says, low),
    )

-- The digits that a value needs are enough for it.
pub leading_zeros_lem :
    (w value : ℕ)
    → value < 2 ^ w
    → (leading_zeros w value ≤ w) × (value < 2 ^ (w - leading_zeros w value))
unfolding leading_zeros
leading_zeros_lem zero value small = (omega arith, small)
leading_zeros_lem (suc w) value small = elim (dec_le (2 ^ w) value) [
  | yes top ↦
      let test : ltb value (2 ^ w) ≡ false = ground (arith, top) in
      let whole : suc w - 0 ≡ suc w = omega arith in rw test (omega arith, rw whole small)
  | no bottom ↦
      let (bound, rest) = leading_zeros_lem w value (omega (arith, bottom)) in
      let test : ltb value (2 ^ w) ≡ true = ground (arith, bottom) in
      let same : suc w - suc (leading_zeros w value) ≡ w - leading_zeros w value = omega arith in
      rw test (omega (arith, bound), rw same rest)
]

pow_16 : (n : ℕ) → 16 ^ n ≡ 2 ^ (4 * n)
pow_16 zero = refl
pow_16 (suc n) =
    let more : 2 ^ (4 * suc n) ≡ 2 ^ suc (suc (suc (suc (4 * n)))) =
      ap (λ (k : ℕ). 2 ^ k) (omega arith) in
    omega (
      arith,
      more,
      pow_16 n,
      pow-suc 16 n,
      pow-suc 2 (4 * n),
      pow-suc 2 (suc (4 * n)),
      pow-suc 2 (suc (suc (4 * n))),
      pow-suc 2 (suc (suc (suc (4 * n)))),
    )

pub needed_precision_lem :
    (value p : ℕ) → value < 2 ^ 64 → needed_precision 4 value ≤ p → value < 16 ^ p
needed_precision_lem value p small enough =
    let (bound, rest) = leading_zeros_lem 64 value small in
    let grow : 2 ^ (64 - leading_zeros 64 value) ≤ 2 ^ (4 * p) =
      pow-le-pow_right (omega arith) (omega (arith, bound, enough)) in
    omega (arith, pow_16 p, grow, rest)
