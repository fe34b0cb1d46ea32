-- ===== src/Acpi/Examples.antt =====
-- The loading of the tables, at inputs.
use xinix.Base.{
  bit_and, ℕ, ◌+◌, ◌*◌, ◌/◌, ◌%◌, ◌^◌, ◌≡◌, refl, arith, true, false, ◌==◌, if◌then◌else◌, List, [],
  ◌∷◌, ◌++◌, some, get_or, replicate, u64, ◌>>=◌,
}
use xinix.Acpi.{Kernel, Acpi, unaligned_u32, load_madt, map_page}
use xinix.Acpi.Records.{MadtRecord, io_apic, other, table_bytes, le_bytes}
use xinix.Acpi.Madt.{loaded, load_madt_lem}
use xinix.Acpi.Dsdt.{
  load_fadt, load_fadt_lem, facs_paddr, dsdt_paddr, map_all, dsdt_pages, length_at, NoPage,
}
use xinix.Acpi.Redirect.{
  Device, Redirection, fixed, writable, IsIoapic, write_io_redirect, write_io_redirect_lem,
}

abbrev records : List MadtRecord
records =
    other 0 (1 ∷ 0 ∷ 1 ∷ 0 ∷ 0 ∷ 0 ∷ [])
    ∷ io_apic 2 0 0xfec0_0000 0
    ∷ other 2 (0 ∷ 0 ∷ 2 ∷ 0 ∷ 0 ∷ 0 ∷ 0 ∷ 0 ∷ [])
    ∷ []

-- The header has the length in its bytes 4 to 7.
abbrev madt_at_zero : List ℕ
madt_at_zero =
    b'A'
    ∷ b'P'
    ∷ b'I'
    ∷ b'C'
    ∷ (le_bytes 4 74
        ++ (replicate 28 0 ++ (le_bytes 4 0xfee0_0000 ++ (le_bytes 4 1 ++ table_bytes records))))

abbrev machine : Kernel
machine = record {
  firmware = λ a. get_or madt_at_zero a 0;
  hhdm_offset = 0xffff_8000_0000_0000;
  kernel_pml4t = 0xffff_8000_0000_1000;
}

abbrev at_start : Acpi
at_start = record {
  store = record {
    entry_at = λ x. 0;
    heap = record { ptr = 0xffff_8000_0100_0000; limit = 0xffff_8000_0200_0000 };
  };
  memory = λ x. 0;
  lapic = 0;
  ioapics = [];
  num_ioapics = 0;
  fadt = 0;
  facs = 0;
  dsdt = 0;
}

load_madt_lem_example : load_madt machine 0 at_start ≡ loaded machine 0 records at_start
unfolding unaligned_u32
load_madt_lem_example =
    load_madt_lem machine 0 records at_start (omega arith) (omega arith) (omega arith) refl

-- An FADT of the first version at address 0, whose DSDT of 9000 bytes lies at 0x2000.
abbrev fadt_at_zero : List ℕ
fadt_at_zero =
    b'F'
    ∷ b'A'
    ∷ b'C'
    ∷ b'P'
    ∷ (le_bytes 4 116 ++ (1 ∷ (replicate 27 0 ++ (le_bytes 4 0x1000 ++ le_bytes 4 0x2000))))

abbrev with_fadt : Kernel
with_fadt = record {
  firmware = λ a.
      if a == 0xffff_8000_0000_2004
      then 40
      else if a == 0xffff_8000_0000_2005
      then 35
      else get_or fadt_at_zero a 0;
  hhdm_offset = 0xffff_8000_0000_0000;
  kernel_pml4t = 0xffff_8000_0000_1000;
}

load_fadt_lem_example :
    (load_fadt with_fadt 0 at_start ≡ (
      map_page with_fadt (facs_paddr with_fadt 0) at_start.store >>= λ facs.
      map_all with_fadt
        (dsdt_pages (dsdt_paddr with_fadt 0) (length_at with_fadt (dsdt_paddr with_fadt 0)))
        facs.1
      >>= λ last. some (record at_start {
        store = last;
        fadt = 0;
        facs = u64 (facs_paddr with_fadt 0 + with_fadt.hhdm_offset);
        dsdt = u64 (dsdt_paddr with_fadt 0 + with_fadt.hhdm_offset);
      })))
    × NoPage
        (dsdt_paddr with_fadt 0 / 4096 + 1)
        (dsdt_pages (dsdt_paddr with_fadt 0) (length_at with_fadt (dsdt_paddr with_fadt 0)))
unfolding unaligned_u32 dsdt_paddr
load_fadt_lem_example = load_fadt_lem with_fadt 0 at_start (omega arith)

-- An RSDT at address 1 with one table, at the end of the direct map.
abbrev rsdt_at_one : List ℕ
rsdt_at_one =
    0 ∷ b'R' ∷ b'S' ∷ b'D' ∷ b'T' ∷ (le_bytes 4 40 ++ (replicate 28 0 ++ le_bytes 4 0x7000))

abbrev with_rsdt : Kernel
with_rsdt = record {
  firmware = λ a. get_or rsdt_at_one a 0;
  hhdm_offset = 0xffff_8000_0000_0000;
  kernel_pml4t = 0xffff_8000_0000_1000;
}

-- An I/O APIC of 24 inputs, with its register select, what was written to its registers, and a version
-- that is only read
abbrev chip : Device
chip = record {
  State = ℕ × (ℕ → ℕ);
  read_at = λ a s. (if a == 0xfec0_0010 then (if s.0 == 1 then 0x17_0011 else s.1 s.0) else s.0, s);
  write_at = λ a v s.
      if a == 0xfec0_0010
      then (s.0, λ i. if i == s.0 then bit_and v (writable 24 i) else s.1 i)
      else (v % 256, s.1);
}

abbrev chip-IsIoapic : IsIoapic chip 0xfec0_0000
chip-IsIoapic = record {
  inputs = 24;
  inputs_fit = omega arith;
  setting = λ s. s.1;
  selected = λ s. s.0;
  select = λ a s. refl;
  select_keeps = λ a i s. refl;
  read_keeps = λ i s. refl;
  write_one = λ v i s. refl;
}

abbrev keyboard : Redirection
keyboard = record {
  irq = 1;
  int_id = 0x21;
  delivery_mode = fixed;
  destination_is_logical = false;
  active_low = false;
  level_triggered = true;
  destination = 3;
}

write_io_redirect_lem_example :
    chip-IsIoapic.setting (write_io_redirect chip 0xfec0_0000 keyboard (0, λ i. 0)) 18
    ≡ 128 * 2 ^ 8 + 0x21
write_io_redirect_lem_example =
    write_io_redirect_lem chip 0xfec0_0000 chip-IsIoapic keyboard (0, λ i. 0) 18 (omega arith)
      (omega arith) (omega arith)
