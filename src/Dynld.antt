-- ===== src/Dynld.antt =====
-- The dynamic loader: loader/src/dynld.c, with loader/include/dynld.h and hash.h, and the layouts of
-- common/include/elf.h. Pointers and 64-bit fields are words; a null pointer is 0. The image's tables
-- of symbols and relocations are functions of a pointer and an index, and the words that are
-- relocated are a function of their addresses. `stuck`: a fault, or a loop without end.
pub mod Hash
pub mod Tags
pub mod Scan
pub mod Relr
pub mod Apply
pub mod Link
mod Examples
use xinix.Base.{ℕ, ◌+◌, ◌-◌, ◌*◌, ◌/◌, ◌%◌, ◌^◌, Bool, if◌then◌else◌, ◌==◌, ◌≡◌, refl}

pub data Result {ℓ} (A : Type ℓ) : Type ℓ where
  ok : A → Result A
  error : ℕ → Result A
  stuck : Result A

-- SYSRESULT_TRY_SYSRESULT2 before the rest
infixl 5 ◌>>=◌
abbrev pub ◌>>=◌ {ℓ κ} : {A : Type ℓ} {B : Type κ} → Result A → (A → Result B) → Result B
step >>= rest = elim step [ ok value ↦ rest value | error code ↦ error code | stuck ↦ stuck ]

-- What comes after a step succeeds only if the step did.
pub >>=_succeeds {ℓ κ} :
    {A : Type ℓ} {B : Type κ} (step : Result A) (rest : A → Result B) {last : B}
    → (step >>= rest) ≡ ok last
    → (value : A) × (step ≡ ok value) × (rest value ≡ ok last)
>>=_succeeds stuck rest done = cc
>>=_succeeds (error code) rest done = cc
>>=_succeeds (ok value) rest done = (value, refl, done)

-- `Elf64_Dyn`
pub record Dyn : Type 0 where
  pub d_tag : ℕ
  pub d_val : ℕ

-- `Elf64_Sym`
pub record Sym : Type 0 where
  pub st_name : ℕ
  pub st_info : ℕ
  pub st_other : ℕ
  pub st_shndx : ℕ
  pub st_value : ℕ
  pub st_size : ℕ

-- `Elf64_Rela`, and `Elf64_Rel` with an addend that is not read
pub record Reloc : Type 0 where
  pub r_offset : ℕ
  pub r_info : ℕ
  pub r_addend : ℕ

-- `DynLibraryEntry`; `dylib_hash` is the union of the hash tables and the count of symbols, and
-- `dylib_plt_rel` that of the two kinds of relocations.
pub record DynLibraryEntry : Type 0 where
  pub dylib_base : ℕ
  pub dylib_dynamic_section : ℕ
  pub dylib_phdrs : ℕ
  pub dylib_dynamic_size : ℕ
  pub dylib_phdrs_size : ℕ
  pub dylib_symtab : ℕ
  pub dylib_hash : ℕ
  pub dylib_pltgot : ℕ
  pub dylib_plt_rel : ℕ
  pub dylib_pltrelsz : ℕ
  pub dylib_hash_type : ℕ
  pub dylib_jmprel_type : ℕ
  pub dylib_strtab : ℕ
  pub dylib_strsz : ℕ
  pub dylib_init_array : ℕ
  pub dylib_fini_array : ℕ
  pub dylib_init_array_size : ℕ
  pub dylib_fini_array_size : ℕ
  pub dylib_soname : ℕ

-- `struct DynLibraryEntry ent = {}`
abbrev pub no_library : DynLibraryEntry
no_library = record {
  dylib_base = 0;
  dylib_dynamic_section = 0;
  dylib_phdrs = 0;
  dylib_dynamic_size = 0;
  dylib_phdrs_size = 0;
  dylib_symtab = 0;
  dylib_hash = 0;
  dylib_pltgot = 0;
  dylib_plt_rel = 0;
  dylib_pltrelsz = 0;
  dylib_hash_type = 0;
  dylib_jmprel_type = 0;
  dylib_strtab = 0;
  dylib_strsz = 0;
  dylib_init_array = 0;
  dylib_fini_array = 0;
  dylib_init_array_size = 0;
  dylib_fini_array_size = 0;
  dylib_soname = 0;
}

-- The tables that the image holds, and what its code answers when an indirect function is called
pub record Tables : Type 0 where
  pub sym_at : ℕ → ℕ → Sym
  pub reloc_at : ℕ → ℕ → Reloc
  pub call : ℕ → ℕ

-- The words of memory
abbrev pub Words : Type 0
Words = ℕ → ℕ

abbrev pub store_word : Words → ℕ → ℕ → Words
store_word m a v x = if x == a then v else m x

-- The errors of common/include/bits/errordef.h, as codes without their sign
abbrev pub err_image_validation_error : ℕ
err_image_validation_error = 32

abbrev pub err_image_wx_seg : ℕ
err_image_wx_seg = 36

abbrev pub err_image_invalid_reloc : ℕ
err_image_invalid_reloc = 37
