-- ===== src/Loader/Examples.antt =====
-- The loader at an image with one segment among its 56 program headers.
use xinix.Base.{[], ◌∷◌, ◌==◌, if◌then◌else◌}
use xinix.Bytes.{Memory}
use xinix.Loader.{ElfHeader}

abbrev header : ElfHeader
header = record {
  e_ident = record {
    magic0 = 0x7f;
    magic1 = 0x45;
    magic2 = 0x4c;
    magic3 = 0x46;
    ei_class = 2;
    ei_data = 1;
    ei_version = 1;
    ei_osabi = 0;
    ei_abiversion = 0;
    ei_pad = 0 ∷ 0 ∷ 0 ∷ 0 ∷ 0 ∷ 0 ∷ 0 ∷ [];
  };
  e_type = 3;
  e_machine = 62;
  e_phoff = 2;
  e_phnum = 56;
}

-- The image at 0x10000: its first program header, at 0x10070, loads 16 bytes to 0x1000.
abbrev image : Memory
image a =
    if a == 0x1_0070
    then 1
    else if a == 0x1_0074
    then 4
    else if a == 0x1_0089
    then 0x10
    else if a == 0x1_0090
    then 16
    else if a == 0x1_0099
    then 0x20
    else 0
