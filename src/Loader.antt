-- ===== src/Loader.antt =====
-- The loading of an image by the loader, `loader_map_elf` of loader/src/loader.c, with the `valloc` and
-- `vprotect` of kernel/src/common/memory.c, which the loader is linked with. Its first loop is that of
-- the prekernel's function of the same name, which Elf models; the program headers are read from memory.
pub mod Maps
mod Examples
use xinix.Base.{
  ℕ, zero, suc, ◌+◌, ◌*◌, ◌^◌, not, Option, none, some, List, [], ◌∷◌, ◌==◌, if◌then◌else◌, u64,
  bit_and, ◌>>>◌,
}
use xinix.Bytes.{Memory, memcpy}
use xinix.Elf.{
  Ident, elf_validate_ident_native, err, Phdr, Found, scan_phdrs, Protection, place, base_rpa,
  total_len, prot_flags, pt_load,
}

-- `Elf64_Ehdr`, as far as the loader reads it
pub record ElfHeader : Type 0 where
  pub e_ident : Ident
  pub e_type : ℕ
  pub e_machine : ℕ
  pub e_phoff : ℕ
  pub e_phnum : ℕ

-- A number of some bytes in memory, the lowest byte first
pub read_bytes : Memory → ℕ → ℕ → ℕ
read_bytes m a zero = 0
read_bytes m a (suc more) = m a + 256 * read_bytes m (a + 1) more

-- A program header at an address
abbrev pub phdr_at : Memory → ℕ → Phdr
phdr_at m a = record {
  p_type = read_bytes m a 4;
  p_flags = read_bytes m (a + 4) 4;
  p_offset = read_bytes m (a + 8) 8;
  p_vaddr = read_bytes m (a + 16) 8;
  p_paddr = read_bytes m (a + 24) 8;
  p_filesz = read_bytes m (a + 32) 8;
  p_memsz = read_bytes m (a + 40) 8;
  p_align = read_bytes m (a + 48) 8;
}

-- `sizeof(ElfNative_Phdr)`
abbrev pub phdr_size : ℕ
phdr_size = 56

-- The program headers from `pos` up to `phdrs_end`
pub phdrs_from : Memory → ℕ → ℕ → List Phdr
phdrs_from m pos zero = []
phdrs_from m pos (suc phnum) = phdr_at m pos ∷ phdrs_from m (pos + phdr_size) phnum

-- `phdrs`: the cast binds to `e_hdr`, so that `e_phoff` counts program headers.
abbrev pub phdrs_of : ElfHeader → ℕ → ℕ
phdrs_of ehdr e_hdr = u64 (e_hdr + phdr_size * ehdr.e_phoff)

-- What `loader_map_elf` gives: the image's address, the two segments that it passes out, the memory,
-- and the calls of `vprotect` from the last one back
pub record Mapping : Type 0 where
  pub root : ℕ
  pub dyn_out : Option ℕ
  pub phdr_out : Option ℕ
  pub memory : Memory
  pub protections : List Protection

pub data Mapped : Type 0 where
  refused : ℕ → Mapped
  mapped_at : Mapping → Mapped

-- The pages that are asked for
abbrev pub page_count : Found → ℕ
page_count f = u64 (f.last_rpa + 4095) >>> 12

-- `valloc` and `vprotect` of the kernel, which give a null pointer
abbrev pub kernel_valloc : ℕ → ℕ → ℕ
kernel_valloc pages flags = 0

abbrev pub kernel_vprotect : Protection → ℕ
kernel_vprotect call = 0

-- The second loop: the memory, and the calls of `vprotect` from the last one back. A segment is copied
-- to where the first of its calls says, null included.
pub map_loaded : ℕ → ℕ → List Phdr → Memory → List Protection → Memory × List Protection
map_loaded e_hdr root [] m log = (m, log)
map_loaded e_hdr root (pos ∷ phdrs) m log =
    let page_begin = u64 (root + base_rpa pos) in
    let opened : Protection = record { start = page_begin; pages = total_len pos; flags = 3 } in
    let closed : Protection = record {
      start = page_begin;
      pages = total_len pos;
      flags = prot_flags pos.p_flags;
    } in
    let mbegin = u64 (kernel_vprotect opened + bit_and pos.p_paddr 4095) in
    let copied = memcpy mbegin (u64 (e_hdr + pos.p_offset)) pos.p_filesz m in
    let loads = pos.p_type == pt_load in
    map_loaded e_hdr root phdrs (if loads then copied else m)
      (if loads then closed ∷ opened ∷ log else log)

-- After the first loop; a null block is used like any other.
pub map_found : ℕ → List Phdr → Memory → Found → Mapping
map_found e_hdr phdrs m f =
    let root = kernel_valloc (page_count f) 0 in
    let (m1, log) = map_loaded e_hdr root phdrs m [] in
    record {
      root = root;
      dyn_out = place root f.dyn_segment;
      phdr_out = place root f.phdr_segment;
      memory = m1;
      protections = log;
    }

pub loader_map_elf : ElfHeader → ℕ → Memory → Mapped
loader_map_elf ehdr e_hdr m =
    let code = elf_validate_ident_native ehdr.e_ident 0 in
    let nothing : Found = record { last_rpa = 0; dyn_segment = none; phdr_segment = none } in
    let phdrs = phdrs_from m (phdrs_of ehdr e_hdr) ehdr.e_phnum in
    if not (code == 0)
    then refused code
    else if not (ehdr.e_machine == 62)
    then refused (err 32)
    else if not (ehdr.e_type == 3)
    then refused (err 32)
    else if not (ehdr.e_phnum == phdr_size)
    then refused (err 32)
    else elim (scan_phdrs phdrs nothing) [
      | none ↦ refused (err 36)
      | some f ↦ mapped_at (map_found e_hdr phdrs m f)
    ]
