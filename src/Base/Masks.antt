-- ===== src/Base/Masks.antt =====
-- What masks keep of a number.
use Prim.Native.Nat.{ℕ, zero, suc, ◌+◌, ◌/◌, ◌≤◌, bit_and, bit_or}
use mathlib.Core.Path.{◌≡◌, refl, ◌∙◌, sym, ap}
use native.Mathlib.Omega.{arith}
use xinix.Base.Bits.{bit_and_step, bit_or_step, bit_and-zero, zero-bit_and}

bit_and-half : (a b : ℕ) → bit_and a b / 2 ≡ bit_and (a / 2) (b / 2)
bit_and-half a b = omega (arith, bit_and_step a b)

bit_or-half : (a b : ℕ) → bit_or a b / 2 ≡ bit_or (a / 2) (b / 2)
bit_or-half a b = omega (arith, bit_or_step a b)

bit_and_assoc_up_to : (n a b c : ℕ) → a ≤ n → bit_and (bit_and a b) c ≡ bit_and a (bit_and b c)
bit_and_assoc_up_to zero a b c small =
    let empty : a ≡ 0 = omega (arith, small) in
    rw (empty, zero-bit_and b, zero-bit_and c, zero-bit_and (bit_and b c)) refl
bit_and_assoc_up_to (suc n) a b c small = omega (
  arith,
  bit_and_step (bit_and a b) c,
  bit_and_step a (bit_and b c),
  bit_and_step a b,
  bit_and_step b c,
  ap (λ (k : ℕ). bit_and k (c / 2)) (bit_and-half a b),
  ap (λ (k : ℕ). bit_and (a / 2) k) (bit_and-half b c),
  bit_and_assoc_up_to n (a / 2) (b / 2) (c / 2) (omega (arith, small)),
)

-- Two masks in turn are one.
pub bit_and_assoc : (a b c : ℕ) → bit_and (bit_and a b) c ≡ bit_and a (bit_and b c)
bit_and_assoc a b c = bit_and_assoc_up_to a a b c (omega arith)

bit_and_comm_up_to : (n a b : ℕ) → a ≤ n → bit_and a b ≡ bit_and b a
bit_and_comm_up_to zero a b small =
    let empty : a ≡ 0 = omega (arith, small) in
    ap (λ (k : ℕ). bit_and k b) empty
    ∙ zero-bit_and b
    ∙ sym (bit_and-zero b)
    ∙ ap (λ (k : ℕ). bit_and b k) (sym empty)
bit_and_comm_up_to (suc n) a b small = omega (
  arith,
  bit_and_step a b,
  bit_and_step b a,
  bit_and_comm_up_to n (a / 2) (b / 2) (omega (arith, small)),
)

pub bit_and_comm : (a b : ℕ) → bit_and a b ≡ bit_and b a
bit_and_comm a b = bit_and_comm_up_to a a b (omega arith)

bit_and_same_up_to : (n a : ℕ) → a ≤ n → bit_and a a ≡ a
bit_and_same_up_to zero a small = let empty : a ≡ 0 = omega (arith, small) in rw empty refl
bit_and_same_up_to (suc n) a small =
    omega (arith, bit_and_step a a, bit_and_same_up_to n (a / 2) (omega (arith, small)))

pub bit_and_same : (a : ℕ) → bit_and a a ≡ a
bit_and_same a = bit_and_same_up_to a a (omega arith)

outside_up_to :
    (n a b c : ℕ) → a ≤ n → b ≤ n → bit_and b c ≡ 0 → bit_and (bit_or a b) c ≡ bit_and a c
outside_up_to zero a b c small_a small_b outside =
    let empty_a : a ≡ 0 = omega (arith, small_a) in
    let empty_b : b ≡ 0 = omega (arith, small_b) in rw (empty_a, empty_b) refl
outside_up_to (suc n) a b c small_a small_b outside = omega (
  arith,
  outside,
  bit_and_step (bit_or a b) c,
  bit_and_step a c,
  bit_and_step b c,
  bit_or_step a b,
  ap (λ (k : ℕ). bit_and k (c / 2)) (bit_or-half a b),
  outside_up_to n (a / 2) (b / 2) (c / 2) (omega (arith, small_a)) (omega (arith, small_b))
      (omega (arith, outside, bit_and_step b c)),
)

-- Bits outside a mask may be set.
pub bit_and-bit_or : (a b c : ℕ) → bit_and b c ≡ 0 → bit_and (bit_or a b) c ≡ bit_and a c
bit_and-bit_or a b c outside = outside_up_to (a + b) a b c (omega arith) (omega arith) outside

-- Bits that are missing are missing after a mask.
pub missing : (x c mask : ℕ) → bit_and x mask ≡ 0 → bit_and (bit_and x c) mask ≡ 0
missing x c mask none_set =
    bit_and_assoc x c mask
    ∙ ap (λ (k : ℕ). bit_and x k) (bit_and_comm c mask)
    ∙ sym (bit_and_assoc x mask c)
    ∙ ap (λ (k : ℕ). bit_and k c) none_set
    ∙ zero-bit_and c

-- A mask keeps none of the bits that it has not.
pub masked_out : (x c mask : ℕ) → bit_and c mask ≡ 0 → bit_and (bit_and x c) mask ≡ 0
masked_out x c mask apart =
    bit_and_assoc x c mask ∙ ap (λ (k : ℕ). bit_and x k) apart ∙ bit_and-zero x

-- A mask gives a part of the bits.
pub part : (x c : ℕ) → bit_and x (bit_and x c) ≡ bit_and x c
part x c = sym (bit_and_assoc x x c) ∙ ap (λ (k : ℕ). bit_and k c) (bit_and_same x)

-- Parts of parts
pub part_of_part : (x y z : ℕ) → bit_and x y ≡ y → bit_and y z ≡ z → bit_and x z ≡ z
part_of_part x y z first second =
    ap (λ (k : ℕ). bit_and x k) (sym second)
    ∙ sym (bit_and_assoc x y z)
    ∙ ap (λ (k : ℕ). bit_and k z) first
    ∙ second
