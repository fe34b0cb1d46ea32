-- ===== src/Acpi/Madt.antt =====
-- `load_madt` against the records of the table.
use xinix.Base.{
  ℕ, suc, ◌+◌, ◌≡◌, refl, ap, sym, ◌∙◌, arith, inl, inr, Bool-cases, Option-cases, true, false,
  Bool, not, ◌&&◌, ◌==◌, if◌then◌else◌, List, [], Option, none, some, length, replicate, ◌>>=◌,
}
use xinix.Heap.{calloc}
use xinix.Acpi.{
  Kernel, no_ioapic, Acpi, map_page, unaligned_u32, table_length, madt_size, count_ioapics,
  new_ioapics, load_madt,
}
use xinix.Acpi.Passes.{Filled, with_ioapics, count_ioapics_lem, fill_ioapics_lem, fill_ioapics_null}
use xinix.Acpi.Records.{MadtRecord, table_bytes, AreRecords, LiesAt, mapped_ioapics, ioapic_count}

abbrev is_none : Option ℕ → Bool
is_none none = true
is_none (some a) = false

new_ioapics_given :
    (n a : ℕ) (s : Acpi)
    → (calloc s.store.heap s.memory n 16).0 ≡ some a
    → Filled (new_ioapics n s) [] n
unfolding new_ioapics
new_ioapics_given n a s e = ground (arith, e)

new_ioapics_null :
    (n : ℕ) (s : Acpi)
    → (calloc s.store.heap s.memory n 16).0 ≡ none
    → ((new_ioapics n s).ioapics ≡ []) × ((new_ioapics n s).num_ioapics ≡ 0)
unfolding new_ioapics
new_ioapics_null n s e = ground (arith, e)

-- What `load_madt` comes to for a table of these records
pub loaded : Kernel → ℕ → List MadtRecord → Acpi → Option Acpi
loaded k p rs s = do
  (lapic, store) ← map_page k (unaligned_u32 k.firmware (p + 36)) s.store
  let n = ioapic_count rs
  let t = new_ioapics n (record s { lapic = lapic; store = store })
  (if not (n == 0) && is_none (calloc store.heap s.memory n 16).0
      then none
      else mapped_ioapics k rs t.store >>= λ found. some (with_ioapics t [] found))

-- For a table of these records the two passes of `load_madt` end, and `ioapics` becomes the list of
-- the I/O APICs in their order, each with its page mapped, and `num_ioapics` their number; it is a
-- fault if there are some and no memory for them.
pub load_madt_lem :
    (k : Kernel) (p : ℕ) (rs : List MadtRecord) (s : Acpi)
    → AreRecords rs
    → LiesAt k.firmware (p + madt_size) (table_bytes rs)
    → table_length k p ≡ madt_size + length (table_bytes rs)
    → s.num_ioapics ≡ 0
    → load_madt k p s ≡ loaded k p rs s
unfolding load_madt loaded
load_madt_lem k p rs s are lies e fresh =
    elim (Option-cases (map_page k (unaligned_u32 k.firmware (p + 36)) s.store)) [
      | inl missing ↦ rw missing refl
      | inr ((lapic, store), page) ↦
          let end = table_length k p in
          let n = ioapic_count rs in
          let counted : count_ioapics (suc end) k p end madt_size s.num_ioapics ≡ some n =
            count_ioapics_lem (suc end) k p end madt_size s.num_ioapics rs are lies (sym e)
              (omega (arith, e))
            ∙ ap some (omega arith) in
          let start : Acpi = record s { lapic = lapic; store = store } in
          let t = new_ioapics n start in
          let fill =
            fill_ioapics_lem (suc end) k p end madt_size t [] rs are lies (sym e)
              (omega (arith, e)) in
          elim (Option-cases (calloc store.heap s.memory n 16).0) [
            | inr (a, given) ↦
                let passed : not (n == 0) && is_none (some a) ≡ false = ground arith in
                rw (page, counted, given, passed) (fill (new_ioapics_given n a start given))
            | inl null ↦ elim (Bool-cases (n == 0)) [
              | inl nothing ↦
                  let (array, number) = new_ioapics_null n start null in
                  let zero_ioapics : n ≡ 0 = ground (arith, nothing) in
                  rw (page, counted, null, nothing)
                    (fill
                      (array ∙ ap (λ (m : ℕ). replicate m no_ioapic) (sym zero_ioapics), number))
              | inr some_one ↦
                  rw (page, counted, null, some_one)
                    (fill_ioapics_null (suc end) k p end madt_size t rs are lies (sym e)
                      (ground (arith, some_one)) (new_ioapics_null n start null).0)
            ]
          ]
    ]
