-- ===== src/Elf.antt =====
-- The loading of the kernel's ELF image: `elf_validate_ident` of common/include/elf.h and
-- `loader_map_elf` of prekernel/shared/src/entry.c. The program headers are given as read from the
-- image.
pub mod Scan
pub mod Place
mod Examples
use xinix.Base.{
  ℕ, ◌+◌, ◌-◌, ◌*◌, ◌/◌, ◌^◌, ◌<◌, Bool, ◌&&◌, ◌||◌, not, Option, none, some, List, [], ◌∷◌, ◌==◌,
  ltb, if◌then◌else◌, bit_and, bit_or, u64, sub64, not64, ◌>>>◌,
}
use mathlib.Core.Option
use mathlib.Core.Bool.{true, false}
use xinix.Bytes.{Memory, memcpy}
use xinix.Prekernel.{PreAlloc, prekernel_aligned_alloc}

-- `Elf_Ident`, the magic number byte by byte
pub record Ident : Type 0 where
  pub magic0 : ℕ
  pub magic1 : ℕ
  pub magic2 : ℕ
  pub magic3 : ℕ
  pub ei_class : ℕ
  pub ei_data : ℕ
  pub ei_version : ℕ
  pub ei_osabi : ℕ
  pub ei_abiversion : ℕ
  pub ei_pad : List ℕ

-- The loop over `ei_pad`
unfoldable pub pad_clear : List ℕ → Bool
pad_clear [] = true
pad_clear (b ∷ bs) = let rest = pad_clear bs in if b == 0 then rest else false

-- Error codes, as 64-bit words
abbrev pub err : ℕ → ℕ
err code = 2 ^ 64 - code

unfoldable pub elf_validate_ident : Ident → ℕ → ℕ → ℕ → ℕ
elf_validate_ident i req_class req_data supabi =
    if not (i.magic0 == 0x7f)
      || (not (i.magic1 == 0x45) || (not (i.magic2 == 0x4c) || not (i.magic3 == 0x46)))
    then err 32
    else if not (i.ei_class == req_class) || not (i.ei_data == req_data)
    then err 32
    else if not (i.ei_version == 1)
    then err 32
    else if not (i.ei_osabi == 0) || not (i.ei_osabi == supabi)
    then err 32
    else if pad_clear i.ei_pad
    then 0
    else err 32

-- On x86-64: the 64-bit class, little endian
abbrev pub elf_validate_ident_native : Ident → ℕ → ℕ
elf_validate_ident_native i supabi = elf_validate_ident i 2 1 supabi

-- `Elf64_Phdr`
pub record Phdr : Type 0 where
  pub p_type : ℕ
  pub p_flags : ℕ
  pub p_offset : ℕ
  pub p_vaddr : ℕ
  pub p_paddr : ℕ
  pub p_filesz : ℕ
  pub p_memsz : ℕ
  pub p_align : ℕ

abbrev pub pt_load : ℕ
pt_load = 1

abbrev pub pt_dynamic : ℕ
pt_dynamic = 2

abbrev pub pt_phdr : ℕ
pt_phdr = 6

-- `PF_W | PF_X`
abbrev pub pf_wx : ℕ
pf_wx = 3

-- `Elf64_Ehdr`, as far as the loader reads it
pub record Ehdr : Type 0 where
  pub e_ident : Ident
  pub e_type : ℕ
  pub e_machine : ℕ
  pub e_entry : ℕ
  pub e_phentsize : ℕ

-- The locals of the first loop
pub record Found : Type 0 where
  pub last_rpa : ℕ
  pub dyn_segment : Option Phdr
  pub phdr_segment : Option Phdr

abbrev pub note_segment : Phdr → Found → Found
note_segment pos f =
    let f1 =
      if pos.p_type == pt_phdr
      then record f { phdr_segment = some pos }
      else if pos.p_type == pt_dynamic
      then record f { dyn_segment = some pos }
      else f in
    let end_rpa = u64 (pos.p_paddr + pos.p_memsz) in
    if pos.p_type == pt_load
    then record f1 { last_rpa = if ltb f1.last_rpa end_rpa then end_rpa else f1.last_rpa }
    else f1

-- The first loop; `none` is ERR_IMAGE_WX_SEG.
pub scan_phdrs : List Phdr → Found → Option Found
scan_phdrs [] f = some f
scan_phdrs (pos ∷ phdrs) f =
    let rest = scan_phdrs phdrs (note_segment pos f) in
    if bit_and pos.p_flags pf_wx == pf_wx then none else rest

-- A call of `vprotect`
pub record Protection : Type 0 where
  pub start : ℕ
  pub pages : ℕ
  pub flags : ℕ

-- PROT_READ, PROT_WRITE and PROT_EXEC for PF_R, PF_W and PF_X
pub prot_flags : ℕ → ℕ
prot_flags p_flags =
    let r = if bit_and p_flags 4 == 0 then 0 else 1 in
    let w = if bit_and p_flags 2 == 0 then r else bit_or r 2 in
    if bit_and p_flags 1 == 0 then w else bit_or w 4

abbrev pub base_rpa : Phdr → ℕ
base_rpa pos = bit_and pos.p_paddr (not64 4095)

abbrev pub total_len : Phdr → ℕ
total_len pos = u64 (sub64 (u64 (pos.p_paddr + pos.p_memsz)) (base_rpa pos) + 4095) >>> 12

abbrev pub copy_target : ℕ → Phdr → ℕ
copy_target root pos = u64 (u64 (root + base_rpa pos) + bit_and pos.p_paddr 4095)

-- The second loop: the memory, and the calls of `vprotect` in order, which gives back its argument
unfoldable pub map_segments :
    ℕ → ℕ → List Phdr → Memory → List Protection → Memory × List Protection
map_segments e_hdr root [] m log = (m, log)
map_segments e_hdr root (pos ∷ phdrs) m log =
    let page_begin = u64 (root + base_rpa pos) in
    let copied = memcpy (copy_target root pos) (u64 (e_hdr + pos.p_offset)) pos.p_filesz m in
    let opened : Protection = record { start = page_begin; pages = total_len pos; flags = 3 } in
    let closed : Protection = record {
      start = page_begin;
      pages = total_len pos;
      flags = prot_flags pos.p_flags;
    } in
    let loads = pos.p_type == pt_load in
    map_segments e_hdr root phdrs (if loads then copied else m)
      (if loads then closed ∷ opened ∷ log else log)

-- What `loader_map_elf` gives: an error code, or the image's address, the two segments that it
-- passes out, the memory, the calls of `vprotect` from the last one back, and the allocator
pub record Image : Type 0 where
  pub root : ℕ
  pub dyn_out : Option ℕ
  pub phdr_out : Option ℕ
  pub memory : Memory
  pub protections : List Protection
  pub alloc : PreAlloc

pub data Loaded : Type 0 where
  failed : ℕ → Loaded
  loaded : Image → Loaded

abbrev pub place : ℕ → Option Phdr → Option ℕ
place root segment = Option.map (λ p. u64 (root + p.p_paddr)) segment

-- The allocator of the prekernel never gives null.
pub load_segments : ℕ → List Phdr → Found → PreAlloc → Memory → Loaded
load_segments e_hdr phdrs f a m =
    let (root, a1) =
      prekernel_aligned_alloc a 4096 (bit_and (u64 (f.last_rpa + 4095)) (not64 4095)) in
    let (m1, log) = map_segments e_hdr root phdrs m [] in
    loaded (record {
      root = root;
      dyn_out = place root f.dyn_segment;
      phdr_out = place root f.phdr_segment;
      memory = m1;
      protections = log;
      alloc = a1;
    })

pub loader_map_elf : Ehdr → ℕ → List Phdr → PreAlloc → Memory → Loaded
loader_map_elf ehdr e_hdr phdrs a m =
    let code = elf_validate_ident_native ehdr.e_ident 0 in
    let nothing : Found = record { last_rpa = 0; dyn_segment = none; phdr_segment = none } in
    if not (code == 0)
    then failed code
    else if not (ehdr.e_machine == 62)
    then failed (err 1)
    else if not (ehdr.e_type == 3)
    then failed (err 1)
    else if not (ehdr.e_phentsize == 56)
    then failed (err 1)
    else elim (scan_phdrs phdrs nothing) [
      | none ↦ failed (err 36)
      | some f ↦ load_segments e_hdr phdrs f a m
    ]
