-- ===== src/Dynld/Apply.antt =====
-- The application of a relocation, `apply_rel`, and the loop DO_REL over a table of them.
use xinix.Base.{
  ℕ, zero, suc, ◌+◌, ◌*◌, Bool, not, ◌&&◌, ◌||◌, Option, none, some, ◌==◌, if◌then◌else◌, bit_and,
  u64, ◌>>>◌,
}
use xinix.Dynld.{
  Result, ok, error, stuck, ◌>>=◌, Sym, DynLibraryEntry, Tables, Words, store_word,
  err_image_validation_error,
}

-- ST_TYPE, ST_BIND and ST_VISIBILITY
abbrev pub st_type : Sym → ℕ
st_type s = bit_and s.st_info 0xF

abbrev pub st_bind : Sym → ℕ
st_bind s = s.st_info >>> 4

abbrev pub st_visibility : Sym → ℕ
st_visibility s = bit_and s.st_other 0x3

abbrev pub stt_gnu_ifunc : ℕ
stt_gnu_ifunc = 10

abbrev pub stb_local : ℕ
stb_local = 0

abbrev pub stv_default : ℕ
stv_default = 0

-- The relocations that are handled
abbrev pub drel_glob_dat : ℕ
drel_glob_dat = 6

abbrev pub drel_jump_slot : ℕ
drel_jump_slot = 7

abbrev pub drel_relative : ℕ
drel_relative = 8

abbrev pub drel_irelative : ℕ
drel_irelative = 37

-- The lookup of a name is not there yet: `dynld_sym_value` always fails.
unfoldable pub dynld_sym_value : ℕ → Result (Option Sym × DynLibraryEntry)
dynld_sym_value name = error 1

-- The symbol and the entry that a relocation is against; no symbol is a null pointer.
unfoldable pub find_symbol : Option Sym → DynLibraryEntry → Result (Option Sym × DynLibraryEntry)
find_symbol none ent = ok (none, ent)
find_symbol (some sym) ent =
    if not (sym.st_shndx == 0)
      && (st_bind sym == stb_local || not (st_visibility sym == stv_default))
    then ok (some sym, ent)
    else dynld_sym_value (u64 (ent.dylib_strtab + sym.st_name))

-- The pointer that is returned, null for a relocation that was put off, and the words
abbrev pub Applied : Type 0
Applied = ℕ × Words

-- `read_add ? (size_t)(*addr) : 0`
abbrev pub read_addend : Bool → ℕ → Words → ℕ
read_addend read_add offset m = if read_add then m offset else 0

-- A value that needs the symbol is a fault without one.
abbrev pub with_symbol : Option Sym → (Sym → Result Applied) → Result Applied
with_symbol none f = stuck
with_symbol (some val) f = f val

-- The switch of `apply_rel`
unfoldable pub apply_kind :
    (ℕ → ℕ) → ℕ → ℕ → ℕ → Bool → Bool → Bool → Option Sym → ℕ → Words → Result Applied
apply_kind call offset reloc addend read_add resolve_defered skip_non_defered sym base m =
    let added = read_addend read_add offset m in
    let put_off : Result Applied = ok (0, m) in
    let of_symbol = λ (val : Sym). u64 (base + val.st_value + addend + added) in
    let relative = u64 (base + addend + added) in
    if reloc == drel_jump_slot
    then with_symbol sym (λ val.
      if st_type val == stt_gnu_ifunc
      then (if resolve_defered
          then ok (of_symbol val, store_word m offset (call (of_symbol val)))
          else put_off)
      else if not skip_non_defered
      then ok (of_symbol val, store_word m offset (of_symbol val))
      else put_off)
    else if reloc == drel_glob_dat
    then (if not skip_non_defered
        then with_symbol sym (λ val. ok (of_symbol val, store_word m offset (of_symbol val)))
        else put_off)
    else if reloc == drel_relative
    then (if not skip_non_defered then ok (0, store_word m offset relative) else put_off)
    else if reloc == drel_irelative
    then (if resolve_defered
        then ok (call relative, store_word m offset (call relative))
        else put_off)
    else error err_image_validation_error

unfoldable pub apply_rel :
    (ℕ → ℕ) → ℕ → ℕ → ℕ → Bool → Option Sym → Bool → Bool → DynLibraryEntry → Words → Result Applied
apply_rel call offset reloc addend read_add sym resolve_defered skip_non_defered ent m =
    find_symbol sym ent >>= λ found.
    apply_kind call offset reloc addend read_add resolve_defered skip_non_defered found.0
      found.1.dylib_base m

-- `ent.dylib_symtab + _syment`, null only as the first symbol of a null table
abbrev pub symbol_of : Tables → ℕ → ℕ → Option Sym
symbol_of t symtab n = if symtab + 24 * n == 0 then none else some (t.sym_at symtab n)

-- The loop of DO_REL over the relocations from number `i` on, `left` of them: whether one was put
-- off, and the words
unfoldable pub do_rel :
    ℕ → Tables → ℕ → DynLibraryEntry → Bool → Bool → ℕ → ℕ → Bool → Words → Result (Bool × Words)
do_rel zero t base ent is_rela needs_defered table i has_defered m = ok (has_defered, m)
do_rel (suc left) t base ent is_rela needs_defered table i has_defered m =
    let r = t.reloc_at table i in
    apply_rel t.call (u64 (base + r.r_offset)) (bit_and r.r_info 0xffff_ffff)
      (if is_rela then r.r_addend else 0) (not is_rela)
      (symbol_of t ent.dylib_symtab (r.r_info >>> 32)) needs_defered needs_defered ent m
    >>= λ applied.
        do_rel left t base ent is_rela needs_defered table (i + 1) (has_defered || applied.0 == 0)
          applied.1
