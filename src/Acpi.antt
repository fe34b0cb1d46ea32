-- ===== src/Acpi.antt =====
-- The tables of the firmware, kernel/src/common/acpi.c, with the layouts of kernel/include/acpi.h:
-- the MADT with its I/O APICs, the FADT, and the walk over the root table. The firmware's memory is a
-- function from virtual addresses to bytes that nothing here writes; `none` is a halt, a fault or a
-- loop without end. `num_ioapics`, an int, counts fewer records than a table has bytes.
pub mod Records
pub mod Passes
pub mod Madt
pub mod Root
pub mod Dsdt
pub mod Redirect
mod Examples
use xinix.Base.{
  ℕ, zero, suc, ◌+◌, ◌-◌, ◌/◌, ◌*◌, ◌%◌, ◌^◌, Bool, Option, none, some, List, [], ◌==◌, ltb,
  if◌then◌else◌, bit_or, set, length, replicate, ◌<<<◌, ◌>>=◌,
}
use xinix.Bytes.{Memory}
use xinix.Heap.{calloc}
use xinix.Paging.{Store, Request, mapped, virt_addr, add_to_hhdm, prot_write}

-- The memory of the firmware, the offset of the direct map, and the kernel's page table
pub record Kernel : Type 0 where
  pub firmware : ℕ → ℕ
  pub hhdm_offset : ℕ
  pub kernel_pml4t : ℕ

-- `unaligned_u16` of the bytes at an address
abbrev pub unaligned_u16 : (ℕ → ℕ) → ℕ → ℕ
unaligned_u16 bytes a = bit_or (bytes a) (bytes (a + 1) <<< 8)

pub unaligned_u32 : (ℕ → ℕ) → ℕ → ℕ
unaligned_u32 bytes a =
    bit_or (bit_or (bit_or (bytes a) (bytes (a + 1) <<< 8)) (bytes (a + 2) <<< 16))
      (bytes (a + 3) <<< 24)

-- `sdt_header_t.length`
abbrev pub table_length : Kernel → ℕ → ℕ
table_length k p = unaligned_u32 k.firmware (p + 4)

-- `sizeof(sdt_header_t)` and `sizeof(madt_header_t)`
abbrev pub header_size : ℕ
header_size = 36

abbrev pub madt_size : ℕ
madt_size = 44

pub record Ioapic : Type 0 where
  pub register_base : ℕ
  pub id : ℕ
  pub global_system_interrupt_base : ℕ

abbrev pub no_ioapic : Ioapic
no_ioapic = record { register_base = 0; id = 0; global_system_interrupt_base = 0 }

-- The page tables with the heap, the heap's memory, and what the tables are loaded into: a null
-- `ioapics` is the empty array.
pub record Acpi : Type 0 where
  pub store : Store
  pub memory : Memory
  pub lapic : ℕ
  pub ioapics : List Ioapic
  pub num_ioapics : ℕ
  pub fadt : ℕ
  pub facs : ℕ
  pub dsdt : ℕ

-- `add_to_hhdm(kernel_pml4t, addr, PAGE_GRANULARITY_4KB, PROT_WRITE)`
abbrev pub page_request : Kernel → ℕ → Request
page_request k addr = record {
  phys_addr = addr;
  granularity = 0;
  mem_flags = prot_write;
  hhdm_off = k.hhdm_offset;
}

pub map_page : Kernel → ℕ → Store → Option (ℕ × Store)
map_page k addr s = elim (add_to_hhdm (page_request k addr) k.kernel_pml4t s) [
  | mapped t ↦ some (virt_addr (page_request k addr), t)
  | _ ↦ none
]

-- The first pass of `load_madt`, from `pos` to `end`; `none`: more rounds than allowed for
pub count_ioapics : ℕ → Kernel → ℕ → ℕ → ℕ → ℕ → Option ℕ
count_ioapics zero k p end pos n = none
count_ioapics (suc rounds) k p end pos n =
    let entry_type = k.firmware (p + pos) in
    let record_length = k.firmware (p + (pos + 1)) in
    let rest =
      count_ioapics rounds k p end (pos + record_length) (if entry_type == 1 then n + 1 else n) in
    if ltb pos end then rest else some n

-- The case of an I/O APIC: the record at `a` goes into the next place of the array.
pub add_ioapic : Kernel → ℕ → Acpi → Option Acpi
add_ioapic k a s =
    if ltb s.num_ioapics (length s.ioapics)
    then elim (map_page k (unaligned_u32 k.firmware (a + 4)) s.store) [
      | none ↦ none
      | some (base, t) ↦ some (record s {
        store = t;
        ioapics = set s.ioapics s.num_ioapics (record {
          register_base = base;
          id = k.firmware (a + 2);
          global_system_interrupt_base = unaligned_u32 k.firmware (a + 8);
        });
        num_ioapics = s.num_ioapics + 1;
      })
    ]
    else none

-- The second pass; the other types of records are printed.
pub fill_ioapics : ℕ → Kernel → ℕ → ℕ → ℕ → Acpi → Option Acpi
fill_ioapics zero k p end pos s = none
fill_ioapics (suc rounds) k p end pos s =
    let entry_type = k.firmware (p + pos) in
    let record_length = k.firmware (p + (pos + 1)) in
    let filled = if entry_type == 1 then add_ioapic k (p + pos) s else some s in
    let rest : Option Acpi = filled >>= λ t. fill_ioapics rounds k p end (pos + record_length) t in
    if ltb pos end then rest else some s

-- `ioapics = calloc(num_ioapics, sizeof(*ioapics)); num_ioapics = 0;`
pub new_ioapics : ℕ → Acpi → Acpi
new_ioapics n s =
    let (block, heap, memory) = calloc s.store.heap s.memory n 16 in
    record s {
      store = record s.store { heap = heap };
      memory = memory;
      ioapics = elim block [ none ↦ [] | some a ↦ replicate n no_ioapic ];
      num_ioapics = 0;
    }

-- `load_madt`; a pass has a round for each byte of the table, and one more.
pub load_madt : Kernel → ℕ → Acpi → Option Acpi
load_madt k p s = do
  (lapic, store) ← map_page k (unaligned_u32 k.firmware (p + 36)) s.store
  let end = table_length k p
  n ← count_ioapics (suc end) k p end madt_size s.num_ioapics
  fill_ioapics (suc end) k p end madt_size
      (new_ioapics n (record s { lapic = lapic; store = store }))
