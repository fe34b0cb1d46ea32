-- ===== src/Paging/Protect/Bits.antt =====
-- The bits of an entry that `vprotect` keeps.
use xinix.Base.{
  ℕ, ◌≡◌, refl, ap, ◌∙◌, bit_and, bit_or, not64, Bool, true, false, ◌==◌, ◌&&◌, if◌then◌else◌,
}
use xinix.Base.Masks.{bit_and_assoc, bit_and-bit_or}
use xinix.Paging.{nx_bit, prot_write, prot_exec}
use xinix.Paging.Protect.{Protect, permit, protect_entry}

-- All but bit 5 and NX
abbrev pub kept_bits : ℕ
kept_bits = not64 0x8000_0000_0000_0020

cleared :
    (e c : ℕ)
    → bit_and c kept_bits ≡ kept_bits
    → bit_and (bit_and e c) kept_bits ≡ bit_and e kept_bits
cleared e c inside = bit_and_assoc e c kept_bits ∙ ap (λ (k : ℕ). bit_and e k) inside

joined : (e c : ℕ) → bit_and c kept_bits ≡ 0 → bit_and (bit_or e c) kept_bits ≡ bit_and e kept_bits
joined e c outside = bit_and-bit_or e c kept_bits outside

pub permit_lem : (e : ℕ) → bit_and (permit e) kept_bits ≡ bit_and e kept_bits
permit_lem e = cleared (bit_or e 0x20) (not64 nx_bit) refl ∙ joined e 0x20 refl

nx_part :
    (nx : Bool) (e : ℕ)
    → bit_and (if nx then bit_or e nx_bit else bit_and e (not64 nx_bit)) kept_bits
      ≡ bit_and e kept_bits
nx_part true e = joined e nx_bit refl
nx_part false e = cleared e (not64 nx_bit) refl

write_part :
    (shut : Bool) (e : ℕ)
    → bit_and (if shut then bit_and e (not64 0x20) else bit_or e 0x20) kept_bits
      ≡ bit_and e kept_bits
write_part true e = cleared e (not64 0x20) refl
write_part false e = joined e 0x20 refl

pub protect_entry_lem :
    (c : Protect) (e : ℕ) → bit_and (protect_entry c e) kept_bits ≡ bit_and e kept_bits
protect_entry_lem c e =
    let shut = bit_and c.prot_flags prot_write == 0 in
    nx_part (c.nx_detected && bit_and c.prot_flags prot_exec == 0)
      (if shut then bit_and e (not64 0x20) else bit_or e 0x20)
    ∙ write_part shut e
