-- ===== src/Loader/Maps.antt =====
-- What the loader maps.
use xinix.Base.{ℕ, ◌+◌, ◌*◌, ◌≤◌, ◌≡◌, bit_and, none, List, [], ◌∷◌, u64}
use xinix.Bytes.{Memory}
use xinix.Elf.{elf_validate_ident_native, Phdr, Found, pt_load}
use xinix.Loader.{ElfHeader, phdrs_from, phdrs_of}

-- The checks of the header
pub record IsAccepted (ehdr : ElfHeader) : Type 0 where
  pub ident : elf_validate_ident_native ehdr.e_ident 0 ≡ 0
  pub machine : ehdr.e_machine ≡ 62
  pub shared : ehdr.e_type ≡ 3
  pub counted : ehdr.e_phnum ≡ 56

abbrev pub headers : ElfHeader → ℕ → Memory → List Phdr
headers ehdr e_hdr m = phdrs_from m (phdrs_of ehdr e_hdr) ehdr.e_phnum

abbrev nothing : Found
nothing = record { last_rpa = 0; dyn_segment = none; phdr_segment = none }

-- Each loaded segment that does not wrap lies in so many pages.
pub FitsPages : ℕ → List Phdr → Type 0
FitsPages pages [] = Unit
FitsPages pages (p ∷ ps) =
    (p.p_type ≡ pt_load → u64 (p.p_paddr + p.p_memsz) ≤ 4096 * pages) × FitsPages pages ps

-- The segments as they are copied: each to its offset in the first page
abbrev pub in_first_page : List Phdr → List Phdr
in_first_page [] = []
in_first_page (p ∷ ps) = record p { p_paddr = bit_and p.p_paddr 4095 } ∷ in_first_page ps
