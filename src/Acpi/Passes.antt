-- ===== src/Acpi/Passes.antt =====
-- The two passes of `load_madt` against the records of the table.
use xinix.Base.{
  ℕ, zero, suc, ◌+◌, ◌<◌, ◌≡◌, refl, ap, sym, ◌∙◌, arith, inl, inr, Option-cases, true, false, ◌==◌,
  ltb, List, [], ◌∷◌, ◌++◌, Option, none, some, length, length-append, set, replicate,
  length-replicate, ◌>>=◌,
}
use mathlib.Core.List.{append_assoc}
use xinix.Paging.{Store}
use xinix.Acpi.{
  Kernel, Ioapic, no_ioapic, Acpi, map_page, unaligned_u32, count_ioapics, add_ioapic, fill_ioapics,
}
use xinix.Acpi.Records.{
  MadtRecord, io_apic, other, record_bytes, le_bytes, table_bytes, IsRecord, AreRecords, LiesAt,
  LiesAt-append, unaligned_u32_lem, mapped_ioapics, ioapic_count,
}

-- What a pass reads of the first record, and where the others lie
module _ (k : Kernel) (p pos : ℕ) (r : MadtRecord) (rs : List MadtRecord)
    (lies : LiesAt k.firmware (p + pos) (record_bytes r ++ table_bytes rs)) where
  rest_lies : LiesAt k.firmware (p + (pos + length (record_bytes r))) (table_bytes rs)
  rest_lies =
      LiesAt-append k.firmware (p + pos) (p + (pos + length (record_bytes r))) (record_bytes r)
        (table_bytes rs) lies (omega arith)

pub count_ioapics_lem :
    (rounds : ℕ) (k : Kernel) (p end pos n : ℕ) (rs : List MadtRecord)
    → AreRecords rs
    → LiesAt k.firmware (p + pos) (table_bytes rs)
    → pos + length (table_bytes rs) ≡ end
    → length (table_bytes rs) < rounds
    → count_ioapics rounds k p end pos n ≡ some (n + ioapic_count rs)
unfolding count_ioapics
count_ioapics_lem zero k p end pos n rs are lies e enough = absurd (omega arith)
count_ioapics_lem (suc rounds) k p end pos n [] are lies e enough =
    let done : ltb pos end ≡ false = ground arith in
    rw (done, count_ioapics) (ap some (omega arith))
count_ioapics_lem (suc rounds) k p end pos n (other type payload ∷ rs) are lies e enough =
    let more : ltb pos end ≡ true = ground arith in
    let first : k.firmware (p + pos) ≡ type = lies.0 in
    let size : k.firmware (p + (pos + 1)) ≡ length (record_bytes (other type payload)) =
      ap k.firmware (omega arith) ∙ lies.1.0 ∙ omega arith in
    let passed : (type == 1) ≡ false = ground (arith, are.0) in
    rw (more, first, size, passed, count_ioapics)
      (count_ioapics_lem rounds k p end (pos + length (record_bytes (other type payload))) n rs
        are.1 (rest_lies k p pos (other type payload) rs lies)
        (omega (arith, length-append payload (table_bytes rs)))
        (omega (arith, length-append payload (table_bytes rs))))
count_ioapics_lem (suc rounds) k p end pos n (io_apic id reserved address interrupt_base ∷ rs) are
      lies e enough =
    let more : ltb pos end ≡ true = ground arith in
    let type : k.firmware (p + pos) ≡ 1 = lies.0 in
    let size : k.firmware (p + (pos + 1)) ≡ 12 = ap k.firmware (omega arith) ∙ lies.1.0 in
    rw (more, type, size, count_ioapics)
      (count_ioapics_lem rounds k p end (pos + 12) (n + 1) rs are.1
          (rest_lies k p pos (io_apic id reserved address interrupt_base) rs lies) (omega arith)
          (omega arith)
        ∙ ap some (omega arith))

-- An array of `n` places of which the first ones are filled
abbrev pub Filled : Acpi → List Ioapic → ℕ → Type 0
Filled s found spare =
    (s.ioapics ≡ found ++ replicate spare no_ioapic) × (s.num_ioapics ≡ length found)

set-next :
    (found : List Ioapic) (spare : ℕ) (x : Ioapic)
    → set (found ++ replicate (suc spare) no_ioapic) (length found) x
      ≡ (found ++ (x ∷ [])) ++ replicate spare no_ioapic
set-next [] spare x = refl
set-next (y ∷ found) spare x = ap (λ (t : List Ioapic). y ∷ t) (set-next found spare x)

-- What the second pass comes to: the state with the I/O APICs of the remaining records filled in
abbrev pub with_ioapics : Acpi → List Ioapic → List Ioapic × Store → Acpi
with_ioapics s found (more, store) = record s {
  store = store;
  ioapics = found ++ more;
  num_ioapics = length found + length more;
}

-- The state after one more I/O APIC
abbrev next_state : Acpi → List Ioapic → ℕ → Ioapic → Store → Acpi
next_state s found spare x store = record s {
  store = store;
  ioapics = (found ++ (x ∷ [])) ++ replicate spare no_ioapic;
  num_ioapics = length (found ++ (x ∷ []));
}

-- What is read of the record of an I/O APIC
abbrev Reads : Kernel → ℕ → Ioapic → ℕ → Type 0
Reads k a x address =
    (k.firmware (a + 2) ≡ x.id)
    × (unaligned_u32 k.firmware (a + 4) ≡ address)
    × (unaligned_u32 k.firmware (a + 8) ≡ x.global_system_interrupt_base)

add_ioapic_lem :
    (k : Kernel) (a : ℕ) (s : Acpi) (found : List Ioapic) (spare : ℕ) (x : Ioapic)
    (address base : ℕ) (store : Store)
    → Filled s found (suc spare)
    → Reads k a x address
    → x.register_base ≡ base
    → map_page k address s.store ≡ some (base, store)
    → add_ioapic k a s ≡ some (next_state s found spare x store)
unfolding add_ioapic
add_ioapic_lem k a s found spare x address base store (array, number) (id, at, interrupt) here
      page =
    let places : length s.ioapics ≡ length found + suc spare =
      ap length array
      ∙ length-append found (replicate (suc spare) no_ioapic)
      ∙ ap (λ (n : ℕ). length found + n) (length-replicate (suc spare) no_ioapic) in
    let room : ltb s.num_ioapics (length s.ioapics) ≡ true = ground (arith, places, number) in
    let counted : length found + 1 ≡ length (found ++ (x ∷ [])) =
      sym (length-append found (x ∷ [])) in
    let placed = set-next found spare x in
    rw (room, at, page, add_ioapic)
      (ap some (cc (array, number, id, interrupt, here, placed, counted)))

add_ioapic_missing :
    (k : Kernel) (a : ℕ) (s : Acpi)
    → map_page k (unaligned_u32 k.firmware (a + 4)) s.store ≡ none
    → add_ioapic k a s ≡ none
unfolding add_ioapic
add_ioapic_missing k a s missing = ground (arith, missing)

module _ (k : Kernel) (a id reserved address interrupt_base : ℕ) (rs : List MadtRecord)
    (are : IsRecord (io_apic id reserved address interrupt_base))
    (lies : LiesAt k.firmware a
      (table_bytes (io_apic id reserved address interrupt_base ∷ rs))) where
  at4 :
      LiesAt k.firmware
        (a + 4)
        (le_bytes 4 address ++ (le_bytes 4 interrupt_base ++ table_bytes rs))
  at4 =
      LiesAt-append k.firmware a (a + 4) (1 ∷ 12 ∷ id ∷ reserved ∷ [])
        (le_bytes 4 address ++ (le_bytes 4 interrupt_base ++ table_bytes rs)) lies (omega arith)

  at8 : LiesAt k.firmware (a + 8) (le_bytes 4 interrupt_base ++ table_bytes rs)
  at8 =
      LiesAt-append k.firmware (a + 4) (a + 8) (le_bytes 4 address)
        (le_bytes 4 interrupt_base ++ table_bytes rs) at4 (omega arith)

  io_apic-Reads :
      (base : ℕ)
      → Reads k a
          (record { register_base = base; id = id; global_system_interrupt_base = interrupt_base })
          address
  io_apic-Reads base = (
    ap k.firmware (omega arith) ∙ lies.1.1.0,
    unaligned_u32_lem k.firmware (a + 4) address (le_bytes 4 interrupt_base ++ table_bytes rs) are.0
        at4,
    unaligned_u32_lem k.firmware (a + 8) interrupt_base (table_bytes rs) are.1 at8,
  )

-- An I/O APIC that is added and those after it are one list.
regroup :
    (s : Acpi) (found : List Ioapic) (spare : ℕ) (x : Ioapic) (store : Store)
    (o : Option (List Ioapic × Store))
    → (o >>= λ t. some (with_ioapics (next_state s found spare x store) (found ++ (x ∷ [])) t))
      ≡ ((o >>= λ t. some (x ∷ t.0, t.1)) >>= λ t. some (with_ioapics s found t))
regroup s found spare x store none = refl
regroup s found spare x store (some (more, last)) =
    let joined = append_assoc found (x ∷ []) more in
    let counted : length (found ++ (x ∷ [])) + length more ≡ length found + suc (length more) =
      omega (arith, length-append found (x ∷ [])) in
    ap some (cc (joined, counted))

pub fill_ioapics_lem :
    (rounds : ℕ) (k : Kernel) (p end pos : ℕ) (s : Acpi) (found : List Ioapic)
    (rs : List MadtRecord)
    → AreRecords rs
    → LiesAt k.firmware (p + pos) (table_bytes rs)
    → pos + length (table_bytes rs) ≡ end
    → length (table_bytes rs) < rounds
    → Filled s found (ioapic_count rs)
    → fill_ioapics rounds k p end pos s
      ≡ (mapped_ioapics k rs s.store >>= λ t. some (with_ioapics s found t))
unfolding fill_ioapics mapped_ioapics
fill_ioapics_lem zero k p end pos s found rs are lies e enough filled = absurd (omega arith)
fill_ioapics_lem (suc rounds) k p end pos s found [] are lies e enough filled =
    let done : ltb pos end ≡ false = ground arith in
    rw (done, fill_ioapics) (ground (arith, filled))
fill_ioapics_lem (suc rounds) k p end pos s found (other type payload ∷ rs) are lies e enough
      filled =
    let more : ltb pos end ≡ true = ground arith in
    let first : k.firmware (p + pos) ≡ type = lies.0 in
    let size : k.firmware (p + (pos + 1)) ≡ length (record_bytes (other type payload)) =
      ap k.firmware (omega arith) ∙ lies.1.0 ∙ omega arith in
    let passed : (type == 1) ≡ false = ground (arith, are.0) in
    rw (more, first, size, passed, fill_ioapics)
      (fill_ioapics_lem rounds k p end (pos + length (record_bytes (other type payload))) s found rs
        are.1 (rest_lies k p pos (other type payload) rs lies)
        (omega (arith, length-append payload (table_bytes rs)))
        (omega (arith, length-append payload (table_bytes rs))) filled)
fill_ioapics_lem (suc rounds) k p end pos s found (io_apic id reserved address interrupt_base ∷ rs)
      are lies e enough filled =
    let more : ltb pos end ≡ true = ground arith in
    let type : k.firmware (p + pos) ≡ 1 = lies.0 in
    let size : k.firmware (p + (pos + 1)) ≡ 12 = ap k.firmware (omega arith) ∙ lies.1.0 in
    elim (Option-cases (map_page k address s.store)) [
      | inl missing ↦
          let reads =
            io_apic-Reads k (p + pos) id reserved address interrupt_base rs are.0 lies 0 in
          rw
            (
              more,
              type,
              size,
              missing,
              add_ioapic_missing k (p + pos) s (rw reads.1 missing),
              fill_ioapics,
            )
            refl
      | inr ((base, store), page) ↦
          let x : Ioapic = record {
            register_base = base;
            id = id;
            global_system_interrupt_base = interrupt_base;
          } in
          let added =
            add_ioapic_lem k (p + pos) s found (ioapic_count rs) x address base store filled
              (io_apic-Reads k (p + pos) id reserved address interrupt_base rs are.0 lies base) refl
              page in
          rw (more, type, size, page, added, fill_ioapics)
            (fill_ioapics_lem rounds k p end (pos + 12)
                (next_state s found (ioapic_count rs) x store) (found ++ (x ∷ [])) rs are.1
                (rest_lies k p pos (io_apic id reserved address interrupt_base) rs lies)
                (omega arith) (omega arith) (refl, refl)
              ∙ regroup s found (ioapic_count rs) x store (mapped_ioapics k rs store))
    ]

-- Without an array the first record of an I/O APIC is a fault.
pub fill_ioapics_null :
    (rounds : ℕ) (k : Kernel) (p end pos : ℕ) (s : Acpi) (rs : List MadtRecord)
    → AreRecords rs
    → LiesAt k.firmware (p + pos) (table_bytes rs)
    → pos + length (table_bytes rs) ≡ end
    → 0 < ioapic_count rs
    → s.ioapics ≡ []
    → fill_ioapics rounds k p end pos s ≡ none
unfolding fill_ioapics add_ioapic
fill_ioapics_null zero k p end pos s rs are lies e some_one null = refl
fill_ioapics_null (suc rounds) k p end pos s [] are lies e some_one null = absurd (omega arith)
fill_ioapics_null (suc rounds) k p end pos s (other type payload ∷ rs) are lies e some_one null =
    let more : ltb pos end ≡ true = ground arith in
    let first : k.firmware (p + pos) ≡ type = lies.0 in
    let size : k.firmware (p + (pos + 1)) ≡ length (record_bytes (other type payload)) =
      ap k.firmware (omega arith) ∙ lies.1.0 ∙ omega arith in
    let passed : (type == 1) ≡ false = ground (arith, are.0) in
    rw (more, first, size, passed, fill_ioapics)
      (fill_ioapics_null rounds k p end (pos + length (record_bytes (other type payload))) s rs
        are.1 (rest_lies k p pos (other type payload) rs lies)
        (omega (arith, length-append payload (table_bytes rs))) some_one null)
fill_ioapics_null (suc rounds) k p end pos s (io_apic id reserved address interrupt_base ∷ rs) are
      lies e some_one null =
    let more : ltb pos end ≡ true = ground arith in
    let type : k.firmware (p + pos) ≡ 1 = lies.0 in
    let no_room : ltb s.num_ioapics (length s.ioapics) ≡ false = ground (arith, null) in
    rw (more, type, no_room, fill_ioapics, add_ioapic) refl

-- A record that says it has no bytes stops the first pass from ever ending.
pub count_ioapics-endless :
    (rounds : ℕ) (k : Kernel) (p end pos n : ℕ)
    → pos < end
    → k.firmware (p + (pos + 1)) ≡ 0
    → count_ioapics rounds k p end pos n ≡ none
unfolding count_ioapics
count_ioapics-endless zero k p end pos n inside empty = refl
count_ioapics-endless (suc rounds) k p end pos n inside empty =
    let more : ltb pos end ≡ true = ground arith in
    let still : pos + 0 ≡ pos = omega arith in
    rw (more, empty, still, count_ioapics) (count_ioapics-endless rounds k p end pos _ inside empty)
