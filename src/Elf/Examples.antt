-- ===== src/Elf/Examples.antt =====
-- The loading of an image at inputs.
use xinix.Base.{◌≤◌, ◌≡◌, ◌⊎◌, inr, refl, none, some, List, [], ◌∷◌, arith}
use xinix.Bytes.{Memory}
use xinix.Elf.{Phdr, Found, Ident, scan_phdrs, map_segments, elf_validate_ident, pad_clear}
use xinix.Elf.Scan.{NoneWx, EndsBelow, scan_phdrs_lem}
use xinix.Elf.Place.{Placed, image_at, map_segments-image_at}

abbrev text_segment : Phdr
text_segment = record {
  p_type = 1;
  p_flags = 5;
  p_offset = 0x1000;
  p_vaddr = 0;
  p_paddr = 0x1008;
  p_filesz = 0x800;
  p_memsz = 0x800;
  p_align = 0x1000;
}

abbrev data_segment : Phdr
data_segment = record {
  p_type = 1;
  p_flags = 6;
  p_offset = 0x2000;
  p_vaddr = 0;
  p_paddr = 0x3000;
  p_filesz = 0x10;
  p_memsz = 0x1000;
  p_align = 0x1000;
}

abbrev headers : List Phdr
headers = text_segment ∷ data_segment ∷ []

abbrev nothing : Found
nothing = record { last_rpa = 0; dyn_segment = none; phdr_segment = none }

scan_phdrs_lem_example :
    ((scan_phdrs headers nothing ≡ none) × (NoneWx headers → ⊥))
    ⊎ (NoneWx headers
        × (g : Found) × (scan_phdrs headers nothing ≡ some g)
        × (0 ≤ g.last_rpa)
        × EndsBelow g.last_rpa headers)
scan_phdrs_lem_example = scan_phdrs_lem headers nothing

scanned :
    scan_phdrs headers nothing
    ≡ some (record { last_rpa = 0x4000; dyn_segment = none; phdr_segment = none })
unfolding scan_phdrs
scanned = refl

headers-Placed : Placed 0x10_0000 0x4000 0x20_0000 headers
unfolding Placed
headers-Placed = (
  (λ _. (omega arith, omega arith, inr (omega arith))),
  ((λ _. (omega arith, omega arith, inr (omega arith))), tt),
)

abbrev marked : Memory
marked a = a

map_segments-image_at_example :
    (map_segments 0x10_0000 0x20_0000 headers marked []).0 0x20_1010
    ≡ image_at 0x10_0000 0x20_0000 headers marked 0x20_1010
map_segments-image_at_example =
    map_segments-image_at 0x10_0000 0x4000 0x20_0000 headers marked [] headers-Placed (omega arith)
      0x20_1010

abbrev ident : Ident
ident = record {
  magic0 = 0x7f;
  magic1 = 0x45;
  magic2 = 0x4c;
  magic3 = 0x46;
  ei_class = 2;
  ei_data = 1;
  ei_version = 1;
  ei_osabi = 0;
  ei_abiversion = 0;
  ei_pad = 0 ∷ 0 ∷ 0 ∷ 0 ∷ 0 ∷ 0 ∷ 0 ∷ [];
}

accepted : elf_validate_ident ident 2 1 0 ≡ 0
unfolding elf_validate_ident pad_clear
accepted = refl
