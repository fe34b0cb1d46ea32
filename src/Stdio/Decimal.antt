-- ===== src/Stdio/Decimal.antt =====
-- `print_dec_int` against the reading of decimal numbers.
use xinix.Base.{
  ℕ, zero, suc, ◌+◌, ◌-◌, ◌*◌, ◌/◌, ◌%◌, ◌^◌, ◌≤◌, ◌<◌, ◌≡◌, refl, sym, ap, ◌∙◌, arith, Bool-cases,
  inl, inr, Bool, false, not, ◌||◌, Option, some, List, [], ◌∷◌, ◌++◌, ◌==◌, ltb, leb,
  if◌then◌else◌, u32, length, replicate, length-replicate, length-append,
}
use xinix.Stdio.{
  StringFile, Printing, Flags, start_printing, write_checked, zeros, dec_digits, print_dec_int,
  sign_of, magnitude, default_precision,
}
use xinix.Stdio.Chunks.{
  write_chunks_lem, write_checked_count, write_checked-append, write_checked_fits,
}
use native.Mathlib.Nat.{div-lt_iff_lt-mul, pow-suc}
use mathlib.Core.List.{append_assoc, append-nil}

-- The number that decimal digits behind a number say
pub read_dec : ℕ → List ℕ → ℕ
read_dec before [] = before
read_dec before (c ∷ cs) = read_dec (before * 10 + (c - 0x30)) cs

read_dec-append :
    (before : ℕ) (xs ys : List ℕ) → read_dec before (xs ++ ys) ≡ read_dec (read_dec before xs) ys
unfolding read_dec
read_dec-append before [] ys = refl
read_dec-append before (x ∷ xs) ys = read_dec-append (before * 10 + (x - 0x30)) xs ys

read_dec-zeros : (n : ℕ) → read_dec 0 (replicate n 0x30) ≡ 0
unfolding read_dec
read_dec-zeros zero = refl
read_dec-zeros (suc n) = read_dec-zeros n

-- Every byte is a decimal digit.
abbrev pub AreDigits : List ℕ → Type 0
AreDigits [] = Unit {0}
AreDigits (c ∷ cs) = (0x30 ≤ c) × (c ≤ 0x39) × AreDigits cs

AreDigits-append : (xs ys : List ℕ) → AreDigits xs → AreDigits ys → AreDigits (xs ++ ys)
AreDigits-append [] ys first second = second
AreDigits-append (x ∷ xs) ys (low, high, first) second =
    (low, high, AreDigits-append xs ys first second)

AreDigits-zeros : (n : ℕ) → AreDigits (replicate n 0x30)
AreDigits-zeros zero = tt
AreDigits-zeros (suc n) = (omega arith, omega arith, AreDigits-zeros n)

tenth : (value room : ℕ) → value < 10 ^ suc room → value < 10 ^ room * 10
tenth value room small = omega (arith, pow-suc 10 room)

-- The digits fit the buffer when the value and the precision do: they say the value, and they are at
-- least as many as the precision.
pub dec_digits_lem :
    (room value real : ℕ) (digits : List ℕ)
    → value < 10 ^ room
    → real ≤ room
    → (text : List ℕ) × (dec_digits room value real digits ≡ some (text ++ digits))
      × (read_dec 0 text ≡ value)
      × AreDigits text
      × (real ≤ length text)
      × (length text ≤ room)
unfolding dec_digits read_dec
dec_digits_lem zero value real digits small fits =
    ([], ground arith, omega arith, tt, omega arith, omega arith)
dec_digits_lem (suc room) value real digits small fits =
    elim (Bool-cases (not (value == 0) || ltb 0 real)) [
      | inr done ↦ ([], rw done, ground arith, tt, ground arith, omega arith)
      | inl more ↦
          let d = value % 10 + 0x30 in
          let below : value / 10 < 10 ^ room =
            (div-lt_iff_lt-mul (omega arith)).1 (tenth value room small) in
          let (text, e, says, digit, enough, bound) =
            dec_digits_lem room (value / 10) (real - 1) (d ∷ digits) below (omega arith) in
          (
            text ++ d ∷ [],
            rw more (e ∙ ap some (sym (append_assoc text (d ∷ []) digits))),
            omega (arith, read_dec-append 0 text (d ∷ []), says),
            AreDigits-append text (d ∷ []) digit (omega arith, omega arith, tt),
            omega (arith, length-append text (d ∷ []), enough),
            omega (arith, length-append text (d ∷ []), bound),
          )
    ]

-- A printing of `text` that has not returned
abbrev pub printed : List ℕ → StringFile → Printing
printed text f = record {
  bytes_printed = length text;
  stream = record { contents = f.contents ++ text; remaining = f.remaining - length text };
  returned = false;
}

pub zeros_lem :
    (count : ℕ) (p : Printing)
    → p.bytes_printed + count < 2 ^ 64
    → zeros count p ≡ write_checked (replicate count 0x30) p
zeros_lem count p fits = write_chunks_lem (count / 64) count 0x30 p (omega arith) fits

pub write_start :
    (text : List ℕ) (f : StringFile)
    → length text ≤ f.remaining
    → length text < 2 ^ 64
    → write_checked text (start_printing f) ≡ printed text f
write_start text f room small =
    write_checked_fits text (start_printing f) refl room (omega arith) ∙ ground arith

abbrev padded : ℕ → ℕ → List ℕ → List ℕ
padded spaces extra digits = replicate spaces 0x30 ++ replicate extra 0x30 ++ digits

length-padded :
    (spaces extra : ℕ) (digits : List ℕ)
    → length (padded spaces extra digits) ≡ spaces + extra + length digits
length-padded spaces extra digits = omega (
  arith,
  length-append {A = ℕ} (replicate spaces 0x30 ++ replicate extra 0x30) digits,
  length-append {A = ℕ} (replicate spaces 0x30) (replicate extra 0x30),
  length-replicate {A = ℕ} spaces 0x30,
  length-replicate {A = ℕ} extra 0x30,
)

read_dec-padded :
    (spaces extra : ℕ) (digits : List ℕ)
    → read_dec 0 (padded spaces extra digits) ≡ read_dec 0 digits
read_dec-padded spaces extra digits =
    read_dec-append 0 (replicate spaces 0x30 ++ replicate extra 0x30) digits
    ∙ ap (λ n. read_dec n digits)
        (read_dec-append 0 (replicate spaces 0x30) (replicate extra 0x30)
          ∙ ap (λ n. read_dec n (replicate extra 0x30)) (read_dec-zeros spaces)
          ∙ read_dec-zeros extra)

pieces_lem :
    (spaces extra : ℕ) (digits : List ℕ) (f : StringFile)
    → spaces + extra + length digits ≤ f.remaining
    → spaces + extra + length digits < 2 ^ 64
    → write_checked digits (zeros extra (zeros spaces (start_printing f)))
      ≡ printed (padded spaces extra digits) f
pieces_lem spaces extra digits f room small =
    let ls = length-replicate {A = ℕ} spaces 0x30 in
    let le = length-replicate {A = ℕ} extra 0x30 in
    let both = length-append {A = ℕ} (replicate spaces 0x30) (replicate extra 0x30) in
    rw
      (
        zeros_lem spaces (start_printing f) (omega arith),
        zeros_lem extra (write_checked (replicate spaces 0x30) (start_printing f))
            (omega (arith, ls, write_checked_count (replicate spaces 0x30) (start_printing f))),
        write_checked-append (replicate spaces 0x30) (replicate extra 0x30) (start_printing f)
            (omega (arith, ls, le)),
        write_checked-append (replicate spaces 0x30 ++ replicate extra 0x30) digits
            (start_printing f) (omega (arith, ls, le, both)),
      )
      (write_start (padded spaces extra digits) f (omega (arith, length-padded spaces extra digits))
        (omega (arith, length-padded spaces extra digits)))

-- Without a sign, on a stream with room, `print_dec_int` prints a text of decimal digits alone, also
-- where it pads, that says the number, of at least as many digits as the precision and the width ask
-- for.
pub print_dec_int_lem :
    (value : ℕ) (precision : Option ℕ) (is_signed : Bool) (flags : Flags) (min_width : ℕ)
    (f : StringFile)
    → value < 2 ^ 64
    → sign_of value is_signed flags ≡ []
    → min_width + default_precision precision + 20 < 2 ^ 31
    → min_width + default_precision precision + 20 ≤ f.remaining
    → (text : List ℕ) × (print_dec_int value precision is_signed flags min_width f
        ≡ some (printed text f))
      × (read_dec 0 text ≡ value)
      × AreDigits text
      × (default_precision precision ≤ length text)
      × (min_width ≤ length text)
unfolding print_dec_int
print_dec_int_lem value precision is_signed flags min_width f word unsigned widths room =
    let (digits, e, says, digit, enough, bound) =
      dec_digits_lem 20 value
        (if leb (default_precision precision) 20 then default_precision precision else 20) []
        (omega arith) (ground arith) in
    go digits e says digit enough bound
  where
    go :
        (digits : List ℕ)
        → dec_digits 20 value
            (if leb (default_precision precision) 20 then default_precision precision else 20)
            []
          ≡ some (digits ++ [])
        → read_dec 0 digits ≡ value
        → AreDigits digits
        → (if leb (default_precision precision) 20 then default_precision precision else 20)
          ≤ length digits
        → length digits ≤ 20
        → (text : List ℕ) × (print_dec_int value precision is_signed flags min_width f
            ≡ some (printed text f))
          × (read_dec 0 text ≡ value)
          × AreDigits text
          × (default_precision precision ≤ length text)
          × (min_width ≤ length text)
    go digits e says digit enough bound =
        let asked = default_precision precision in
        let real : ℕ = if leb asked 20 then asked else 20 in
        let spaces0 : ℕ = if ltb asked min_width then min_width - asked else 0 in
        let extra : ℕ = if flags.zero_pad then u32 (asked - real + spaces0) else asked - real in
        let spaces : ℕ = if flags.zero_pad then 0 else spaces0 in
        let same : magnitude value is_signed ≡ value = ground arith in
        let below : spaces0 + (asked - real) ≤ min_width + asked = ground arith in
        let total : spaces + extra ≡ spaces0 + (asked - real) = ground arith in
        let size = length-padded spaces extra digits in
        let text : some
              (write_checked (digits ++ []) (zeros extra (zeros spaces (start_printing f))))
            ≡ some (printed (padded spaces extra digits) f) =
          ap (λ t. some (write_checked t (zeros extra (zeros spaces (start_printing f)))))
            (append-nil digits)
          ∙ ap some (
              pieces_lem spaces extra digits f (omega (arith, total, bound, room, below))
                (omega (arith, total, bound, widths, below))) in
        (
          padded spaces extra digits,
          rw (unsigned, same, e, print_dec_int) text,
          read_dec-padded spaces extra digits ∙ says,
          AreDigits-append (replicate spaces 0x30 ++ replicate extra 0x30) digits
              (AreDigits-append (replicate spaces 0x30) (replicate extra 0x30)
                (AreDigits-zeros spaces) (AreDigits-zeros extra))
              digit,
          ground (arith, total, size),
          ground (arith, total, size),
        )
