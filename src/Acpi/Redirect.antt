-- ===== src/Acpi/Redirect.antt =====
-- The registers of the first I/O APIC: `read_ioapic`, `write_ioapic` and `write_io_redirect`, over an
-- I/O APIC as an interface of volatile accesses.
use xinix.Base.{
  ℕ, ◌+◌, ◌*◌, ◌%◌, ◌^◌, ◌<◌, ◌==◌, ◌≡◌, refl, ◌∙◌, arith, Bool, true, false, ◌||◌, ltb, leb,
  Bool-cases, inl, inr, ap, ◌≤◌, if◌then◌else◌, bit_or, bit_and, u32, ◌<<<◌,
}
use xinix.Base.Bits.{bit_or_fields, bit_and_split, bit_and_low, bit_and_field}

-- `ioredtbl_delivery_mode_t`
pub data DeliveryMode : Type 0 where
  fixed lowest_priority smi nmi init extint : DeliveryMode

abbrev pub mode_bits : DeliveryMode → ℕ
mode_bits fixed = 0
mode_bits lowest_priority = 1
mode_bits smi = 2
mode_bits nmi = 4
mode_bits init = 5
mode_bits extint = 7

-- A device with 32-bit registers at addresses
pub record Device : Type 1 where
  pub State : Type 0
  pub read_at : ℕ → State → ℕ × State
  pub write_at : ℕ → ℕ → State → State

module _ (d : Device) where
  -- With the register base of the I/O APIC; `register_base + 4` counts in words of four bytes.
  pub read_ioapic : ℕ → ℕ → d.State → ℕ × d.State
  read_ioapic base addr s = d.read_at (base + 16) (d.write_at base addr s)

  pub write_ioapic : ℕ → ℕ → ℕ → d.State → d.State
  write_ioapic base addr val s =
      let (result, t) = read_ioapic base addr s in
      d.write_at (base + 16) val (d.write_at base addr t)

-- The arguments of `write_io_redirect`
pub record Redirection : Type 0 where
  pub irq : ℕ
  pub int_id : ℕ
  pub delivery_mode : DeliveryMode
  pub destination_is_logical : Bool
  pub active_low : Bool
  pub level_triggered : Bool
  pub destination : ℕ

abbrev pub low_reg_value : Redirection → ℕ
low_reg_value r =
    bit_or
      (bit_or
        (bit_or
          (bit_or (if r.level_triggered then 0x8000 else 0) (if r.active_low then 0x2000 else 0))
          (if r.destination_is_logical then 0x0800 else 0))
        (mode_bits r.delivery_mode <<< 8))
      r.int_id

abbrev pub high_reg_value : Redirection → ℕ
high_reg_value r = u32 (r.destination <<< 24)

pub write_io_redirect : (d : Device) → ℕ → Redirection → d.State → d.State
write_io_redirect d base r s =
    let reg_base = 0x10 + r.irq * 2 in
    write_ioapic d base (reg_base + 1) (high_reg_value r)
      (write_ioapic d base reg_base (low_reg_value r) s)

-- The bits of a register that are written, for a number of inputs: those of the identifier; in the two
-- registers of an input all but the reserved ones and the delivery status and the remote IRR, bits 12
-- and 14, which are only read. The version and the arbitration are only read.
abbrev pub writable : ℕ → ℕ → ℕ
writable inputs i =
    if i == 0
    then 0x0f00_0000
    else if ltb i 16 || leb (16 + inputs * 2) i
    then 0
    else if i % 2 == 0
    then 0x1_afff
    else 0xff00_0000

-- How an I/O APIC at a base answers: the first word selects a register, of the lowest byte, and the
-- word behind 16 bytes is the register that is selected. `setting` is what the bits of a register that
-- are written hold.
pub record IsIoapic (d : Device) (base : ℕ) : Type 0 where
  pub inputs : ℕ
  pub inputs_fit : inputs ≤ 120
  pub setting : d.State → ℕ → ℕ
  pub selected : d.State → ℕ
  pub select : (a : ℕ) (s : d.State) → selected (d.write_at base a s) ≡ a % 256
  pub select_keeps : (a i : ℕ) (s : d.State) → setting (d.write_at base a s) i ≡ setting s i
  pub read_keeps : (i : ℕ) (s : d.State) → setting (d.read_at (base + 16) s).1 i ≡ setting s i
  pub write_one :
      (v i : ℕ) (s : d.State)
      → setting (d.write_at (base + 16) v s) i
        ≡ (if i == selected s then bit_and v (writable inputs i) else setting s i)

abbrev bit_of : Bool → ℕ
bit_of true = 1
bit_of false = 0

-- The fields above the vector
abbrev upper_fields : Redirection → ℕ
upper_fields r =
    128 * bit_of r.level_triggered
    + 32 * bit_of r.active_low
    + 8 * bit_of r.destination_is_logical
    + mode_bits r.delivery_mode

flags_disjoint :
    (level active logical : Bool)
    → bit_or
        (bit_or (if level then 0x8000 else 0) (if active then 0x2000 else 0))
        (if logical then 0x0800 else 0)
      ≡ (16 * bit_of level + 4 * bit_of active + bit_of logical) * 2 ^ 11
flags_disjoint true true true = refl
flags_disjoint true true false = refl
flags_disjoint true false true = refl
flags_disjoint true false false = refl
flags_disjoint false true true = refl
flags_disjoint false true false = refl
flags_disjoint false false true = refl
flags_disjoint false false false = refl

mode_small : (m : DeliveryMode) → mode_bits m < 8
mode_small fixed = omega arith
mode_small lowest_priority = omega arith
mode_small smi = omega arith
mode_small nmi = omega arith
mode_small init = omega arith
mode_small extint = omega arith

low_reg_value_lem :
    (r : Redirection) → r.int_id < 256 → low_reg_value r ≡ upper_fields r * 2 ^ 8 + r.int_id
low_reg_value_lem r small =
    let flags =
      16 * bit_of r.level_triggered + 4 * bit_of r.active_low + bit_of r.destination_is_logical in
    let mode = mode_bits r.delivery_mode in
    let modes : bit_or (flags * 2 ^ 11) (mode * 2 ^ 8) ≡ flags * 2 ^ 11 + mode * 2 ^ 8 =
      bit_or_fields 11 flags (mode * 2 ^ 8) (omega (arith, mode_small r.delivery_mode)) in
    let together : flags * 2 ^ 11 + mode * 2 ^ 8 ≡ upper_fields r * 2 ^ 8 = omega arith in
    rw (flags_disjoint r.level_triggered r.active_low r.destination_is_logical, modes, together)
      (bit_or_fields 8 (upper_fields r) r.int_id small)

-- None of the bits that are only read is set.
flags_masked :
    (level active logical : Bool)
    → bit_and (16 * bit_of level + 4 * bit_of active + bit_of logical) 0x35
      ≡ 16 * bit_of level + 4 * bit_of active + bit_of logical
flags_masked true true true = refl
flags_masked true true false = refl
flags_masked true false true = refl
flags_masked true false false = refl
flags_masked false true true = refl
flags_masked false true false = refl
flags_masked false false true = refl
flags_masked false false false = refl

low_masked :
    (r : Redirection)
    → r.int_id < 256
    → bit_and (upper_fields r * 2 ^ 8 + r.int_id) 0x1_afff ≡ upper_fields r * 2 ^ 8 + r.int_id
low_masked r small =
    let flags =
      16 * bit_of r.level_triggered + 4 * bit_of r.active_low + bit_of r.destination_is_logical in
    let mode = mode_bits r.delivery_mode in
    let mode_kept : bit_and mode 7 ≡ mode =
      bit_and_low 3 mode ∙ omega (arith, mode_small r.delivery_mode) in
    let apart : upper_fields r ≡ flags * 2 ^ 3 + mode = omega arith in
    let upper : bit_and (upper_fields r) 0x1af ≡ upper_fields r =
      ap (λ (k : ℕ). bit_and k 0x1af) apart
      ∙ bit_and_split 3 flags 0x35 mode 7 (omega (arith, mode_small r.delivery_mode)) (omega arith)
      ∙ omega (
        arith,
        flags_masked r.level_triggered r.active_low r.destination_is_logical,
        mode_kept,
      ) in
    bit_and_split 8 (upper_fields r) 0x1af r.int_id 0xff small (omega arith)
    ∙ omega (arith, upper, bit_and_low 8 r.int_id, small)

high_masked : (t : ℕ) → t < 256 → bit_and (t * 2 ^ 24) 0xff00_0000 ≡ t * 2 ^ 24
high_masked t small = bit_and_field 24 8 (t * 2 ^ 24) ∙ omega (arith, small)

module _ (d : Device) (base : ℕ) (io : IsIoapic d base) where
  write_ioapic_lem :
      (addr val i : ℕ) (s : d.State)
      → addr < 256
      → io.setting (write_ioapic d base addr val s) i
        ≡ (if i == addr then bit_and val (writable io.inputs i) else io.setting s i)
  unfolding write_ioapic read_ioapic
  write_ioapic_lem addr val i s small =
      let t = (d.read_at (base + 16) (d.write_at base addr s)).1 in
      let here : io.selected (d.write_at base addr t) ≡ addr = io.select addr t ∙ omega arith in
      let kept : io.setting (d.write_at base addr t) i ≡ io.setting s i =
        io.select_keeps addr i t
        ∙ io.read_keeps i (d.write_at base addr s)
        ∙ io.select_keeps addr i s in
      io.write_one val i (d.write_at base addr t) ∙ rw (here, kept) refl

  -- For an input of an I/O APIC `write_io_redirect` leaves in the bits that are written of the input's
  -- two registers the vector, the mode, the flags and the destination, each in a field of its own, and
  -- changes the bits that are written of no other register.
  pub write_io_redirect_lem :
      (r : Redirection) (s : d.State) (i : ℕ)
      → r.irq < io.inputs
      → r.int_id < 256
      → r.destination < 256
      → io.setting (write_io_redirect d base r s) i ≡ (
          if i == 17 + r.irq * 2
          then r.destination * 2 ^ 24
          else if i == 16 + r.irq * 2
          then upper_fields r * 2 ^ 8 + r.int_id
          else io.setting s i)
  unfolding write_io_redirect
  write_io_redirect_lem r s i input vector target =
      let fit = io.inputs_fit in
      let low = low_reg_value_lem r vector in
      let high : high_reg_value r ≡ r.destination * 2 ^ 24 = omega arith in
      let next : 16 + r.irq * 2 + 1 ≡ 17 + r.irq * 2 = omega arith in
      let second =
        write_ioapic_lem (16 + r.irq * 2 + 1) (high_reg_value r) i
          (write_ioapic d base (16 + r.irq * 2) (low_reg_value r) s) (omega (arith, input, fit)) in
      let first =
        write_ioapic_lem (16 + r.irq * 2) (low_reg_value r) i s (omega (arith, input, fit)) in
      second
      ∙ rw (first, high, low, next)
          (elim (Bool-cases (i == 17 + r.irq * 2)) [
            | inl odd ↦
                let bits : writable io.inputs i ≡ 0xff00_0000 = ground (arith, odd, input) in
                rw (odd, bits) (high_masked r.destination target)
            | inr other ↦ elim (Bool-cases (i == 16 + r.irq * 2)) [
              | inl even ↦
                  let bits : writable io.inputs i ≡ 0x1_afff = ground (arith, even, input) in
                  rw (other, even, bits) (low_masked r vector)
              | inr rest ↦ rw (other, rest) refl
            ]
          ])
