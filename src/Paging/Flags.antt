-- ===== src/Paging/Flags.antt =====
-- `set_flags` as arithmetic on the entry.
use xinix.Base.{
  ℕ, ◌+◌, ◌*◌, ◌/◌, ◌%◌, ◌^◌, ◌<◌, ◌≡◌, arith, Bool-cases, inl, inr, Bool, ◌||◌, not, ◌==◌,
  if◌then◌else◌, bit_and, bit_or, not64,
}
use xinix.Base.Bits.{bit_and_low, bit_or_high, bit_and_step, bit_or_step, bit_or-zero}
use xinix.Paging.{set_flags, nx_bit, prot_write, prot_exec}

or_2 : (x : ℕ) → bit_or x 2 ≡ x / 4 * 4 + 2 + x % 2
or_2 x = omega (arith, bit_or_step x 2, bit_or_step (x / 2) 1, bit_or-zero (x / 2 / 2))

and_not_2 : (x : ℕ) → x < 2 ^ 64 → bit_and x (not64 2) ≡ x / 4 * 4 + x % 2
and_not_2 x small = omega (
  arith,
  bit_and_step x (not64 2),
  bit_and_step (x / 2) (not64 2 / 2),
  bit_and_low 62 (x / 2 / 2),
)

or_nx : (x : ℕ) → x < 2 ^ 64 → bit_or x nx_bit ≡ 2 ^ 63 + x % 2 ^ 63
or_nx x small =
    let top : bit_or (x / 2 ^ 63) 1 ≡ 1 =
      omega (arith, bit_or_step (x / 2 ^ 63) 1, bit_or-zero (x / 2 ^ 63 / 2)) in
    omega (arith, bit_or_high 63 x 1, top)

-- Bit 63 says that the page is not executed, bit 1 that it is written to, each by the flag or against
-- it as the entry stays permissive; every other bit is kept.
pub set_flags_lem :
    (entry mem_flags : ℕ) (stay : Bool)
    → entry < 2 ^ 64
    → set_flags entry mem_flags stay
      ≡ (if not (bit_and mem_flags prot_exec == 0) || stay then 0 else 2 ^ 63)
        + (entry % 2 ^ 63 / 4 * 4
            + (if not (bit_and mem_flags prot_write == 0) || stay then 2 else 0)
            + entry % 2)
unfolding set_flags
set_flags_lem entry mem_flags stay word =
    let low : bit_and entry (not64 nx_bit) ≡ entry % 2 ^ 63 = bit_and_low 63 entry in
    let high = or_nx entry word in
    elim (Bool-cases (not (bit_and mem_flags prot_exec == 0) || stay)) [
      | inl exec ↦ elim (Bool-cases (not (bit_and mem_flags prot_write == 0) || stay)) [
        | inl write ↦ rw (exec, write, low) (omega (arith, or_2 (entry % 2 ^ 63)))
        | inr read ↦ rw (exec, read, low) (omega (arith, and_not_2 (entry % 2 ^ 63) (omega arith)))
      ]
      | inr no_exec ↦ elim (Bool-cases (not (bit_and mem_flags prot_write == 0) || stay)) [
        | inl write ↦ rw (no_exec, write, high) (omega (arith, or_2 (2 ^ 63 + entry % 2 ^ 63)))
        | inr read ↦
            rw (no_exec, read, high)
              (omega (arith, and_not_2 (2 ^ 63 + entry % 2 ^ 63) (omega arith)))
      ]
    ]
