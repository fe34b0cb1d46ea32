-- ===== src/Base/Bits.antt =====
-- The bit operations as arithmetic, at every width: one equation for the lowest digit of each,
-- and from these the masks and the joining of disjoint fields.
use Prim.Native.Nat.{ℕ, zero, suc, ◌+◌, ◌-◌, ◌*◌, ◌/◌, ◌%◌, ◌^◌, ◌≤◌, ◌<◌, min, max}
use Prim.Native.Nat.{bit_and, bit_or, bit_xor, digits, differ}
use Prim.Native.Nat.{bit_and-bitwise, bit_or-bitwise, bit_xor-bitwise}
use mathlib.Core.Path.{◌≡◌, refl, ◌∙◌, sym, ap, ap₂}
use native.Mathlib.Nat.{mul-add-mod_self_right, mod-eq_of_lt, mod-lt, div-add-mod'}
use native.Mathlib.Nat.{div-lt_iff_lt-mul, pow-suc, one-le-pow, le_refl, add-zero}
use native.Mathlib.Omega.{arith}

-- The native operations stand for `digits`, a recursion with fuel. Fuel past the first number
-- changes nothing.
module _ (tail : ℕ → ℕ) (digit : ℕ → ℕ → ℕ) where
  digits_enough :
      (x y more less : ℕ)
      → x ≤ more
      → x ≤ less
      → digits tail digit more x y ≡ digits tail digit less x y
  digits_enough zero y zero zero _ _ = refl
  digits_enough zero y zero (suc less) _ _ = refl
  digits_enough zero y (suc more) zero _ _ = refl
  digits_enough zero y (suc more) (suc less) _ _ = refl
  digits_enough (suc x) y zero less in_more _ = elim in_more [ ]
  digits_enough (suc x) y (suc more) zero _ in_less = elim in_less [ ]
  digits_enough (suc x) y (suc more) (suc less) in_more in_less =
      let halves : digits tail digit more (suc x / 2) (y / 2)
          ≡ digits tail digit less (suc x / 2) (y / 2) =
        digits_enough (suc x / 2) (y / 2) more less (omega arith) (omega arith) in
      rw halves

pub bit_and_step : (a b : ℕ) → bit_and a b ≡ bit_and (a / 2) (b / 2) * 2 + min (a % 2) (b % 2)
bit_and_step zero b = omega (arith, bit_and-bitwise 0 b, bit_and-bitwise 0 (b / 2))
bit_and_step (suc a) b = omega (
  arith,
  bit_and-bitwise (suc a) b,
  bit_and-bitwise (suc a / 2) (b / 2),
  digits_enough (λ y. zero) min (suc a / 2) (b / 2) a (suc a / 2) (omega arith) (omega arith),
)

pub bit_or_step : (a b : ℕ) → bit_or a b ≡ bit_or (a / 2) (b / 2) * 2 + max (a % 2) (b % 2)
bit_or_step zero b = omega (arith, bit_or-bitwise 0 b, bit_or-bitwise 0 (b / 2))
bit_or_step (suc a) b = omega (
  arith,
  bit_or-bitwise (suc a) b,
  bit_or-bitwise (suc a / 2) (b / 2),
  digits_enough (λ y. y) max (suc a / 2) (b / 2) a (suc a / 2) (omega arith) (omega arith),
)

differ-zero : (b : ℕ) → b ≡ b / 2 * 2 + differ 0 (b % 2)
differ-zero b = omega arith

pub bit_xor_step : (a b : ℕ) → bit_xor a b ≡ bit_xor (a / 2) (b / 2) * 2 + differ (a % 2) (b % 2)
bit_xor_step zero b = omega (arith, bit_xor-bitwise 0 b, bit_xor-bitwise 0 (b / 2), differ-zero b)
bit_xor_step (suc a) b = omega (
  arith,
  bit_xor-bitwise (suc a) b,
  bit_xor-bitwise (suc a / 2) (b / 2),
  digits_enough (λ y. y) differ (suc a / 2) (b / 2) a (suc a / 2) (omega arith) (omega arith),
)

scaled-half : (p k r : ℕ) → (p * 2 ^ suc k + r) / 2 ≡ p * 2 ^ k + r / 2
scaled-half p k r = omega (arith, ap (λ (t : ℕ). p * t) (pow-suc 2 k))

scaled-low : (p k r : ℕ) → (p * 2 ^ suc k + r) % 2 ≡ r % 2
scaled-low p k r = omega (arith, ap (λ (t : ℕ). p * t) (pow-suc 2 k))

-- What holds of any operation that works digit by digit.
module _ (op f : ℕ → ℕ → ℕ) (step : (a b : ℕ) → op a b ≡ op (a / 2) (b / 2) * 2 + f (a % 2) (b % 2))
    (at_zero : op 0 0 ≡ 0) where
  -- High and low fields are worked on apart.
  split :
      (k p q r s : ℕ)
      → r < 2 ^ k
      → s < 2 ^ k
      → op (p * 2 ^ k + r) (q * 2 ^ k + s) ≡ op p q * 2 ^ k + op r s
  split zero p q r s hr hs = ground (arith, at_zero)
  split (suc k) p q r s hr hs = omega (
    arith,
    step (p * 2 ^ suc k + r) (q * 2 ^ suc k + s),
    ap₂ op (scaled-half p k r) (scaled-half q k s),
    ap₂ f (scaled-low p k r) (scaled-low q k s),
    split k p q (r / 2) (s / 2) (omega (arith, pow-suc 2 k)) (omega (arith, pow-suc 2 k)),
    step r s,
    ap (λ (t : ℕ). op p q * t) (pow-suc 2 k),
  )

  -- No digit is made above those of the arguments.
  bounded :
      ((x y : ℕ) → x < 2 → y < 2 → f x y < 2) → (k a b : ℕ) → a < 2 ^ k → b < 2 ^ k → op a b < 2 ^ k
  bounded small zero a b ha hb = ground (arith, at_zero)
  bounded small (suc k) a b ha hb = omega (
    arith,
    step a b,
    small (a % 2) (b % 2) (omega arith) (omega arith),
    bounded small k (a / 2) (b / 2) (omega (arith, pow-suc 2 k)) (omega (arith, pow-suc 2 k)),
    pow-suc 2 k,
  )

differ_small : (x y : ℕ) → x < 2 → y < 2 → differ x y < 2
differ_small zero y p q = q
differ_small (suc zero) zero p q = omega arith
differ_small (suc zero) (suc zero) p q = omega arith
differ_small (suc zero) (suc (suc y)) p q = absurd (omega arith)
differ_small (suc (suc x)) y p q = absurd (omega arith)

module _ (k p q r s : ℕ) (hr : r < 2 ^ k) (hs : s < 2 ^ k) where
  pub bit_and_split : bit_and (p * 2 ^ k + r) (q * 2 ^ k + s) ≡ bit_and p q * 2 ^ k + bit_and r s
  bit_and_split = split bit_and min bit_and_step refl k p q r s hr hs

  pub bit_or_split : bit_or (p * 2 ^ k + r) (q * 2 ^ k + s) ≡ bit_or p q * 2 ^ k + bit_or r s
  bit_or_split = split bit_or max bit_or_step refl k p q r s hr hs

  pub bit_xor_split : bit_xor (p * 2 ^ k + r) (q * 2 ^ k + s) ≡ bit_xor p q * 2 ^ k + bit_xor r s
  bit_xor_split = split bit_xor differ bit_xor_step refl k p q r s hr hs

module _ (k a b : ℕ) (ha : a < 2 ^ k) (hb : b < 2 ^ k) where
  pub bit_and-lt : bit_and a b < 2 ^ k
  bit_and-lt = bounded bit_and min bit_and_step refl (λ x y p q. omega arith) k a b ha hb

  pub bit_or-lt : bit_or a b < 2 ^ k
  bit_or-lt = bounded bit_or max bit_or_step refl (λ x y p q. omega arith) k a b ha hb

  pub bit_xor-lt : bit_xor a b < 2 ^ k
  bit_xor-lt = bounded bit_xor differ bit_xor_step refl differ_small k a b ha hb

-- Strong induction on the first number, which each digit equation halves.
below_half :
    (P : ℕ → Type 0) → P 0 → ((a : ℕ) → P (suc a / 2) → P (suc a)) → (n a : ℕ) → a ≤ n → P a
below_half P base next n zero h = base
below_half P base next zero (suc a) h = absurd (omega arith)
below_half P base next (suc n) (suc a) h =
    next a (below_half P base next n (suc a / 2) (omega arith))

pub bit_and-zero : (a : ℕ) → bit_and a 0 ≡ 0
bit_and-zero a =
    below_half (λ x. bit_and x 0 ≡ 0) refl (λ x ih. omega (arith, bit_and_step (suc x) 0)) a a
      (le_refl a)

pub bit_or-zero : (a : ℕ) → bit_or a 0 ≡ a
bit_or-zero a =
    below_half (λ x. bit_or x 0 ≡ x) refl (λ x ih. omega (arith, bit_or_step (suc x) 0)) a a
      (le_refl a)

differ_zero : (x : ℕ) → x < 2 → differ x 0 ≡ x
differ_zero zero h = refl
differ_zero (suc zero) h = refl
differ_zero (suc (suc x)) h = absurd (omega arith)

pub bit_xor-zero : (a : ℕ) → bit_xor a 0 ≡ a
bit_xor-zero a =
    below_half (λ x. bit_xor x 0 ≡ x) refl
      (λ x ih. omega (arith, bit_xor_step (suc x) 0, differ_zero (suc x % 2) (omega arith))) a a
      (le_refl a)

pub zero-bit_and : (b : ℕ) → bit_and 0 b ≡ 0
zero-bit_and b = bit_and-bitwise 0 b

pub zero-bit_or : (b : ℕ) → bit_or 0 b ≡ b
zero-bit_or b = bit_or-bitwise 0 b

-- The remainder is the only one.
pub mod_unique : (q n r : ℕ) → r < n → (q * n + r) % n ≡ r
mod_unique q n r h = mul-add-mod_self_right q n r ∙ mod-eq_of_lt h

half_mask : (k : ℕ) → (2 ^ suc k - 1) / 2 ≡ 2 ^ k - 1
half_mask k = omega (arith, pow-suc 2 k, one-le-pow k 2 (omega arith))

-- The remainder by `2 ^ suc k` keeps the lowest digit.
halved_mod : (k a : ℕ) → a % 2 ^ suc k ≡ a / 2 % 2 ^ k * 2 + a % 2
halved_mod k a =
    ap (λ (t : ℕ). t % 2 ^ suc k) (quotient k a)
    ∙ mod_unique (a / 2 / 2 ^ k) (2 ^ suc k) (a / 2 % 2 ^ k * 2 + a % 2) (in_range k a)
  where
    in_range : (k a : ℕ) → a / 2 % 2 ^ k * 2 + a % 2 < 2 ^ suc k
    in_range k a =
        omega (arith, pow-suc 2 k, mod-lt (a / 2) {m = 2 ^ k} (one-le-pow k 2 (omega arith)))

    quotient : (k a : ℕ) → a ≡ a / 2 / 2 ^ k * 2 ^ suc k + (a / 2 % 2 ^ k * 2 + a % 2)
    quotient k a =
        omega (arith, div-add-mod' (a / 2) (2 ^ k), ap (λ (t : ℕ). a / 2 / 2 ^ k * t) (pow-suc 2 k))

-- `a & (2^k - 1)` is the remainder.
pub bit_and_low : (k a : ℕ) → bit_and a (2 ^ k - 1) ≡ a % 2 ^ k
bit_and_low zero a = omega (arith, bit_and-zero a)
bit_and_low (suc k) a = omega (
  arith,
  bit_and_step a (2 ^ suc k - 1),
  ap (bit_and (a / 2)) (half_mask k),
  bit_and_low k (a / 2),
  pow-suc 2 k,
  one-le-pow k 2 (omega arith),
  halved_mod k a,
)

pub two_pow_add : (k m : ℕ) → 2 ^ (k + m) ≡ 2 ^ k * 2 ^ m
two_pow_add k zero = ground arith
two_pow_add k (suc m) =
    ap (λ (t : ℕ). 2 ^ t) (add_suc k m)
    ∙ omega (arith, pow-suc 2 (k + m), two_pow_add k m, ap (λ (t : ℕ). 2 ^ k * t) (pow-suc 2 m))
  where
    add_suc : (k m : ℕ) → k + suc m ≡ suc (k + m)
    add_suc k m = omega arith

whole : (k a : ℕ) → a / 2 ^ k * 2 ^ k + a % 2 ^ k ≡ a
whole k a = div-add-mod' a (2 ^ k)

low_lt : (k a : ℕ) → a % 2 ^ k < 2 ^ k
low_lt k a = mod-lt a (one-le-pow k 2 (omega arith))

-- A mask of `w` bits from bit `k` on cuts a field out, in place.
pub bit_and_field : (k w a : ℕ) → bit_and a ((2 ^ w - 1) * 2 ^ k) ≡ a / 2 ^ k % 2 ^ w * 2 ^ k
bit_and_field k w a =
    ap₂ bit_and (sym (whole k a)) (sym (add-zero ((2 ^ w - 1) * 2 ^ k)))
    ∙ bit_and_split k (a / 2 ^ k) (2 ^ w - 1) (a % 2 ^ k) 0 (low_lt k a)
        (one-le-pow k 2 (omega arith))
    ∙ omega (arith, bit_and-zero (a % 2 ^ k), ap (λ (t : ℕ). t * 2 ^ k) (bit_and_low w (a / 2 ^ k)))

-- `|` with bits from bit `k` on leaves the lower ones.
pub bit_or_high : (k a q : ℕ) → bit_or a (q * 2 ^ k) ≡ bit_or (a / 2 ^ k) q * 2 ^ k + a % 2 ^ k
bit_or_high k a q =
    ap₂ bit_or (sym (whole k a)) (sym (add-zero (q * 2 ^ k)))
    ∙ bit_or_split k (a / 2 ^ k) q (a % 2 ^ k) 0 (low_lt k a) (one-le-pow k 2 (omega arith))
    ∙ omega (arith, bit_or-zero (a % 2 ^ k))

padded : (k r : ℕ) → r ≡ 0 * 2 ^ k + r
padded k r = omega arith

-- `|` of disjoint fields is their sum.
pub bit_or_fields : (k q r : ℕ) → r < 2 ^ k → bit_or (q * 2 ^ k) r ≡ q * 2 ^ k + r
bit_or_fields k q r h =
    ap₂ bit_or (sym (add-zero (q * 2 ^ k))) (padded k r)
    ∙ bit_or_split k q 0 0 r (one-le-pow k 2 (omega arith)) h
    ∙ omega (arith, zero-bit_or r, ap (λ (t : ℕ). t * 2 ^ k) (bit_or-zero q))

pub bit_or_fields' : (k q r : ℕ) → r < 2 ^ k → bit_or r (q * 2 ^ k) ≡ q * 2 ^ k + r
bit_or_fields' k q r h =
    ap₂ bit_or (padded k r) (sym (add-zero (q * 2 ^ k)))
    ∙ bit_or_split k 0 q r 0 h (one-le-pow k 2 (omega arith))
    ∙ omega (arith, bit_or-zero r, ap (λ (t : ℕ). t * 2 ^ k) (zero-bit_or q))

-- Clearing the low `k` bits of a word rounds it down.
pub bit_and_clear :
    (k w a : ℕ) → a < 2 ^ (k + w) → bit_and a (2 ^ (k + w) - 2 ^ k) ≡ a / 2 ^ k * 2 ^ k
bit_and_clear k w a h =
    ap (bit_and a) (as_field k w)
    ∙ bit_and_field k w a
    ∙ ap (λ (t : ℕ). t * 2 ^ k) (mod-eq_of_lt (quotient_lt k w a h))
  where
    as_field : (k w : ℕ) → 2 ^ (k + w) - 2 ^ k ≡ (2 ^ w - 1) * 2 ^ k
    as_field k w =
        let one_less : 2 ^ w ≡ 2 ^ w - 1 + 1 = omega (arith, one-le-pow w 2 (omega arith)) in
        omega (arith, two_pow_add k w, ap (λ (t : ℕ). t * 2 ^ k) one_less)

    quotient_lt : (k w a : ℕ) → a < 2 ^ (k + w) → a / 2 ^ k < 2 ^ w
    quotient_lt k w a h =
        (div-lt_iff_lt-mul (one-le-pow k 2 (omega arith))).1 (omega (arith, two_pow_add k w))
