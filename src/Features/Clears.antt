-- ===== src/Features/Clears.antt =====
-- What the clears of `init_cpu_feature_array` leave.
use xinix.Base.{
  ℕ, ◌<◌, ◌≡◌, sym, ap, ◌∙◌, arith, Bool, true, false, Bool-cases, inl, inr, ◌==◌, bit_and,
  if◌then◌else◌,
}
use xinix.Base.Bits.{bit_and-zero}
use xinix.Base.Masks.{bit_and_same, missing, masked_out, part, part_of_part}
use xinix.Features.{not32, clear_unless}

-- Among the first 16 words no bit is set that was not.
abbrev pub Part : (ℕ → ℕ) → (ℕ → ℕ) → Type 0
Part before after = (i : ℕ) → i < 16 → bit_and (before i) (after i) ≡ after i

pub Part-same : (a : ℕ → ℕ) → Part a a
Part-same a i small = bit_and_same (a i)

pub Part-trans : (a b c : ℕ → ℕ) → Part a b → Part b c → Part a c
Part-trans a b c first second i small =
    part_of_part (a i) (b i) (c i) (first i small) (second i small)

-- What a word lacks it lacks in a part.
Part-missing :
    (a b : ℕ → ℕ) (i mask : ℕ) → Part a b → i < 16 → bit_and (a i) mask ≡ 0 → bit_and (b i) mask ≡ 0
Part-missing a b i mask parts small none_set =
    ap (λ (k : ℕ). bit_and k mask) (sym (parts i small)) ∙ missing (a i) (b i) mask none_set

pub clear_unless-Part : (keep : Bool) (i mask : ℕ) (a : ℕ → ℕ) → Part a (clear_unless keep i mask a)
clear_unless-Part true i mask a j small = bit_and_same (a j)
clear_unless-Part false i mask a j small = elim (Bool-cases (j == i)) [
  | inl here ↦ let at_i : j ≡ i = ground (arith, here) in rw (here, at_i) (part (a i) (not32 mask))
  | inr away ↦ rw away (bit_and_same (a j))
]

-- The bits are cleared unless they are kept.
abbrev pub Cleared : Bool → ℕ → ℕ → (ℕ → ℕ) → Type 0
Cleared keep i mask a = bit_and (a i) (if keep then 0 else mask) ≡ 0

pub clear_unless-Cleared :
    (keep : Bool) (i mask : ℕ) (a : ℕ → ℕ)
    → bit_and (not32 mask) mask ≡ 0
    → Cleared keep i mask (clear_unless keep i mask a)
clear_unless-Cleared true i mask a apart = bit_and-zero (a i)
clear_unless-Cleared false i mask a apart =
    let here : (i == i) ≡ true = ground arith in rw here (masked_out (a i) (not32 mask) mask apart)

pub Part-Cleared :
    (keep : Bool) (a b : ℕ → ℕ) (i mask : ℕ)
    → Part a b
    → i < 16
    → Cleared keep i mask a
    → Cleared keep i mask b
Part-Cleared keep a b i mask parts small = Part-missing a b i (if keep then 0 else mask) parts small
