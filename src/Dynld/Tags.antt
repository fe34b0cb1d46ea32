-- ===== src/Dynld/Tags.antt =====
-- The tags of a dynamic section, `Elf_DynTag` of common/include/elf.h.
use xinix.Base.{ℕ, Bool, true, false, ◌==◌, if◌then◌else◌, u32}

pub data DynTag : Type 0 where
  null needed pltrelsz pltgot hash strtab symtab rela relasz relaent strsz syment : DynTag
  init fini soname rpath symbolic rel relsz relent pltrel debug textrel jmprel : DynTag
  bind_now init_array fini_array init_arraysz fini_arraysz runpath flags : DynTag
  preinit_array preinit_arraysz relrsz relr relrent symtabsz gnu_hash unlisted : DynTag

-- The cast of a `d_tag` to the enumeration, whose numbers have 32 bits
unfoldable pub dyn_tag : ℕ → DynTag
dyn_tag d_tag =
    let tag = u32 d_tag in
    if tag == 0
    then null
    else if tag == 1
    then needed
    else if tag == 2
    then pltrelsz
    else if tag == 3
    then pltgot
    else if tag == 4
    then hash
    else if tag == 5
    then strtab
    else if tag == 6
    then symtab
    else if tag == 7
    then rela
    else if tag == 8
    then relasz
    else if tag == 9
    then relaent
    else if tag == 10
    then strsz
    else if tag == 11
    then syment
    else if tag == 12
    then init
    else if tag == 13
    then fini
    else if tag == 14
    then soname
    else if tag == 15
    then rpath
    else if tag == 16
    then symbolic
    else if tag == 17
    then rel
    else if tag == 18
    then relsz
    else if tag == 19
    then relent
    else if tag == 20
    then pltrel
    else if tag == 21
    then debug
    else if tag == 22
    then textrel
    else if tag == 23
    then jmprel
    else if tag == 24
    then bind_now
    else if tag == 25
    then init_array
    else if tag == 26
    then fini_array
    else if tag == 27
    then init_arraysz
    else if tag == 28
    then fini_arraysz
    else if tag == 29
    then runpath
    else if tag == 30
    then flags
    else if tag == 32
    then preinit_array
    else if tag == 33
    then preinit_arraysz
    else if tag == 35
    then relrsz
    else if tag == 36
    then relr
    else if tag == 37
    then relrent
    else if tag == 39
    then symtabsz
    else if tag == 0x6fff_fef5
    then gnu_hash
    else unlisted

abbrev pub is_null : DynTag → Bool
is_null null = true
is_null _ = false

abbrev pub is_needed : DynTag → Bool
is_needed needed = true
is_needed _ = false
