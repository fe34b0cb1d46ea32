-- ===== src/Dynld/Scan.antt =====
-- The pass over the dynamic section at the start of `dynld_link`.
pub mod Fields
use xinix.Base.{
  ℕ, ◌+◌, ◌-◌, ◌*◌, ◌/◌, ◌%◌, ◌^◌, Bool, true, false, not, List, [], ◌∷◌, ◌==◌, if◌then◌else◌, u32,
  u64,
}
use xinix.Dynld.{
  Result, ok, error, stuck, ◌>>=◌, Dyn, DynLibraryEntry, no_library, err_image_validation_error,
  err_image_wx_seg, err_image_invalid_reloc,
}
use xinix.Dynld.Tags.{
  DynTag, dyn_tag, is_null, null, needed, pltrelsz, pltgot, hash, strtab, symtab, rela, relasz,
  relaent, strsz, syment, init, fini, soname, rpath, symbolic, rel, relsz, relent, pltrel, debug,
  textrel, jmprel, bind_now, init_array, fini_array, init_arraysz, fini_arraysz, runpath, flags,
  preinit_array, preinit_arraysz, relrsz, relr, relrent, symtabsz, gnu_hash, unlisted,
}

-- The numbers of the tags that are kept
abbrev pub dt_hash : ℕ
dt_hash = 4

abbrev pub dt_rela : ℕ
dt_rela = 7

abbrev pub dt_rel : ℕ
dt_rel = 17

abbrev pub dt_symtabsz : ℕ
dt_symtabsz = 39

abbrev pub dt_gnu_hash : ℕ
dt_gnu_hash = 0x6fff_fef5

-- The locals of `dynld_link`; `rel_table` is the union `rel`, `relr_table` is `relr`.
pub record Link : Type 0 where
  pub ent : DynLibraryEntry
  pub soname_offset : ℕ
  pub preinit_table : ℕ
  pub preinit_array_sz : ℕ
  pub first_needed : ℕ
  pub last_needed : ℕ
  pub rel_table : ℕ
  pub relty : ℕ
  pub relcount : ℕ
  pub binds_now : Bool
  pub relr_table : ℕ
  pub relr_count : ℕ

abbrev pub at_base : ℕ → Link
at_base base = record {
  ent = record no_library { dylib_base = base };
  soname_offset = 0;
  preinit_table = 0;
  preinit_array_sz = 0;
  first_needed = 0;
  last_needed = 0;
  rel_table = 0;
  relty = 0;
  relcount = 0;
  binds_now = false;
  relr_table = 0;
  relr_count = 0;
}

-- The sizes of `Elf64_Rel`, `Elf64_Rela`, `Elf64_Sym` and `Elf64_Addr`
abbrev pub rel_size : ℕ
rel_size = 16

abbrev pub rela_size : ℕ
rela_size = 24

abbrev pub sym_size : ℕ
sym_size = 24

abbrev pub addr_size : ℕ
addr_size = 8

-- `if (no_relocate) return SYSRESULT2_ERROR(ERR_IMAGE_INVALID_RELOC);` before a change
abbrev pub relocates : Bool → Link → Result Link
relocates no_relocate l = if no_relocate then error err_image_invalid_reloc else ok l

-- A check that ends in ERR_IMAGE_VALIDATION_ERROR
abbrev pub valid_if : Bool → Link → Result Link
valid_if test l = if test then ok l else error err_image_validation_error

abbrev pub with_ent : Link → DynLibraryEntry → Link
with_ent l e = record l { ent = e }

-- The switch, with the base, the address of the entry and its value
unfoldable pub scan_entry : ℕ → Bool → ℕ → ℕ → Link → DynTag → Result Link
scan_entry base no_relocate dynent v l null = ok l
scan_entry base no_relocate dynent v l needed =
    if l.first_needed == 0
    then ok (record l { first_needed = dynent })
    else ok (record l { last_needed = dynent })
scan_entry base no_relocate dynent v l pltrelsz =
    ok (with_ent l (record l.ent { dylib_pltrelsz = v }))
scan_entry base no_relocate dynent v l pltgot =
    ok (with_ent l (record l.ent { dylib_pltgot = u64 (base + v) }))
scan_entry base no_relocate dynent v l hash =
    if l.ent.dylib_hash_type == dt_gnu_hash
    then ok l
    else ok (with_ent l (record l.ent { dylib_hash = u64 (base + v); dylib_hash_type = dt_hash }))
scan_entry base no_relocate dynent v l strtab =
    ok (with_ent l (record l.ent { dylib_strtab = u64 (base + v) }))
scan_entry base no_relocate dynent v l symtab =
    ok (with_ent l (record l.ent { dylib_symtab = u64 (base + v) }))
scan_entry base no_relocate dynent v l rela =
    relocates no_relocate (record l { rel_table = u64 (base + v); relty = dt_rela })
scan_entry base no_relocate dynent v l relasz =
    relocates no_relocate (record l { relcount = v / rela_size })
scan_entry base no_relocate dynent v l relaent = valid_if (v == rel_size) l
scan_entry base no_relocate dynent v l strsz = ok (with_ent l (record l.ent { dylib_strsz = v }))
scan_entry base no_relocate dynent v l syment = valid_if (v == sym_size) l
scan_entry base no_relocate dynent v l init =
    valid_if (l.ent.dylib_init_array == 0)
      (with_ent l (record l.ent { dylib_init_array = dynent + 8; dylib_init_array_size = 1 }))
scan_entry base no_relocate dynent v l fini =
    valid_if (l.ent.dylib_fini_array == 0)
      (with_ent l (record l.ent { dylib_fini_array = dynent + 8; dylib_fini_array_size = 1 }))
scan_entry base no_relocate dynent v l soname = ok (record l { soname_offset = u32 v })
scan_entry base no_relocate dynent v l rpath = ok l
scan_entry base no_relocate dynent v l symbolic = ok l
scan_entry base no_relocate dynent v l rel =
    relocates no_relocate (record l { rel_table = u64 (base + v); relty = dt_rel })
scan_entry base no_relocate dynent v l relsz =
    relocates no_relocate (record l { relcount = v / rel_size })
scan_entry base no_relocate dynent v l relent = valid_if (v == rel_size) l
scan_entry base no_relocate dynent v l pltrel =
    ok (with_ent l (record l.ent { dylib_jmprel_type = u32 v }))
scan_entry base no_relocate dynent v l debug = ok l
scan_entry base no_relocate dynent v l textrel = error err_image_wx_seg
scan_entry base no_relocate dynent v l jmprel =
    ok (with_ent l (record l.ent { dylib_plt_rel = u64 (base + v) }))
scan_entry base no_relocate dynent v l bind_now = ok (record l { binds_now = true })
scan_entry base no_relocate dynent v l init_array =
    valid_if (l.ent.dylib_init_array == 0)
      (with_ent l (record l.ent { dylib_init_array = u64 (base + v) }))
scan_entry base no_relocate dynent v l fini_array =
    valid_if (l.ent.dylib_fini_array == 0)
      (with_ent l (record l.ent { dylib_fini_array = u64 (base + v) }))
scan_entry base no_relocate dynent v l init_arraysz =
    ok (with_ent l (record l.ent { dylib_init_array_size = u32 v }))
scan_entry base no_relocate dynent v l fini_arraysz =
    ok (with_ent l (record l.ent { dylib_fini_array_size = u32 v }))
scan_entry base no_relocate dynent v l runpath = ok l
scan_entry base no_relocate dynent v l flags = ok l
scan_entry base no_relocate dynent v l preinit_array =
    ok (record l { preinit_table = u64 (base + v) })
scan_entry base no_relocate dynent v l preinit_arraysz = ok (record l { preinit_array_sz = v })
scan_entry base no_relocate dynent v l relrsz = ok (record l { relr_count = v })
scan_entry base no_relocate dynent v l relr = ok (record l { relr_table = u64 (base + v) })
scan_entry base no_relocate dynent v l relrent = valid_if (v == addr_size) l
scan_entry base no_relocate dynent v l symtabsz =
    if l.ent.dylib_hash_type == 0
    then ok (with_ent l (record l.ent { dylib_hash = v; dylib_hash_type = dt_symtabsz }))
    else ok l
scan_entry base no_relocate dynent v l gnu_hash =
    ok (with_ent l (record l.ent { dylib_hash = u64 (base + v) }))
scan_entry base no_relocate dynent v l unlisted = ok l

-- The loop up to DT_NULL; `stuck`: the section has no end.
unfoldable pub scan_dynamic : ℕ → Bool → ℕ → List Dyn → Link → Result Link
scan_dynamic base no_relocate dynent [] l = stuck
scan_dynamic base no_relocate dynent (d ∷ ds) l =
    let rest : Result Link =
      scan_entry base no_relocate dynent d.d_val l (dyn_tag d.d_tag) >>= λ l1.
      scan_dynamic base no_relocate (dynent + 16) ds l1 in
    if is_null (dyn_tag d.d_tag) then ok l else rest
