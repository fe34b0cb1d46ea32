-- ===== src/Dynld/Link.antt =====
-- `dynld_link`: the scan, the relocations, and the entry in the table of libraries.
pub mod Table
pub mod Relative
pub mod Needed
use xinix.Base.{
  ℕ, ◌+◌, ◌-◌, ◌*◌, ◌/◌, ◌%◌, ◌^◌, Bool, true, false, not, ◌&&◌, Option, none, some, List, [], ◌∷◌,
  ◌==◌, ltb, if◌then◌else◌, bit_and, bit_or, not64, u64, set, replicate,
}
use xinix.Dynld.{
  Result, ok, error, stuck, ◌>>=◌, Dyn, DynLibraryEntry, no_library, Tables, Words, store_word,
}
use xinix.Dynld.Tags.{dyn_tag, is_needed}
use xinix.Dynld.Scan.{Link, at_base, dt_rel, dt_rela, scan_dynamic}
use xinix.Dynld.Relr.{relr_loop}
use xinix.Dynld.Apply.{do_rel}

abbrev pub lock_bit : ℕ
lock_bit = 2 ^ 63

-- The places of `entries`: 8192 bytes of entries of 128 bytes, less one
abbrev pub max_entries : ℕ
max_entries = 8192 / 128 - 1

-- `DynldState`, with the address of its `entries`
pub record DynldState : Type 0 where
  pub dynld_lock_and_offset : ℕ
  pub entries : List DynLibraryEntry
  pub entries_at : ℕ

pub read_max_ents : DynldState → ℕ
read_max_ents s = bit_and s.dynld_lock_and_offset (not64 lock_bit)

-- The switch over the kind of a table, with its DO_REL: whether relocations are put off, and the words
pub pass_over : Tables → ℕ → DynLibraryEntry → ℕ → ℕ → ℕ → Bool → Words → Result (Bool × Words)
pass_over t base ent kind table count defered m =
    if kind == 0
    then ok (defered, m)
    else if kind == dt_rel
    then do_rel count t base ent false defered table 0 false m
    else if kind == dt_rela
    then do_rel count t base ent true defered table 0 false m
    else error 999

-- The block of the relocations
pub relocate : Tables → ℕ → Link → Words → Result Words
relocate t base l m = relr_loop l.relr_count base l.relr_table 0 m >>= λ m1.
    pass_over t base l.ent l.relty l.rel_table l.relcount false m1 >>= λ rel.
    (if l.binds_now
      then pass_over t base l.ent l.ent.dylib_jmprel_type l.ent.dylib_plt_rel l.relcount false rel.1
      else ok (false, rel.1))
    >>= λ jmp.
        (if rel.0
          then pass_over t base l.ent l.relty l.rel_table l.relcount true jmp.1
          else ok (false, jmp.1))
        >>= λ again.
            (if l.binds_now && jmp.0
              then pass_over t base l.ent l.ent.dylib_jmprel_type l.ent.dylib_plt_rel l.relcount
                  true again.1
              else ok (false, again.1))
            >>= λ last. ok last.1

-- `DYN_STR(ent, soname)` of a signed offset of 32 bits, or the name of the file
abbrev pub soname_of : Link → ℕ → ℕ
soname_of l file_name =
    if l.soname_offset == 0
    then file_name
    else if ltb l.soname_offset (2 ^ 31)
    then u64 (l.ent.dylib_strtab + l.soname_offset)
    else u64 (l.ent.dylib_strtab + l.soname_offset + (2 ^ 64 - 2 ^ 32))

-- The loop over the needed libraries, with the entries of the section from the address `a` on
pub check_needed : List Dyn → ℕ → ℕ → ℕ → Result (Unit {0})
check_needed [] a first last = if first == last then ok tt else stuck
check_needed (d ∷ ds) a first last =
    let later = check_needed ds (a + 16) first last in
    let next = check_needed ds (a + 16) (first + 16) last in
    if first == last
    then ok tt
    else if not (a == first)
    then later
    else if is_needed (dyn_tag d.d_tag)
    then error 1
    else next

-- The entry in the table, behind its lock; without another caller a lock that is held is held for
-- ever. With the state, an error or the entry's address and the words.
pub insert_entry : DynldState → DynLibraryEntry → Words → Result (ℕ × Words) × DynldState
insert_entry s ent m =
    let ent_lock = s.dynld_lock_and_offset in
    let locked = record s { dynld_lock_and_offset = bit_or ent_lock lock_bit } in
    let ent_off = bit_and ent_lock (not64 lock_bit) in
    let eref = s.entries_at + 128 * ent_lock in
    let linked =
      store_word (store_word m (u64 (ent.dylib_pltgot + 8)) eref) (u64 (ent.dylib_pltgot + 16)) 0 in
    if not (bit_and ent_lock lock_bit == 0)
    then (stuck, locked)
    else if ent_off == max_entries
    then (error 1, locked)
    else if ltb ent_lock max_entries
    then (
      ok (eref, if ent.dylib_pltgot == 0 then m else linked),
      record s { entries = set s.entries ent_lock ent; dynld_lock_and_offset = ent_off },
    )
    else (stuck, locked)

-- The parts before the table: the entry and the words
pub prepare : Tables → ℕ → List Dyn → ℕ → ℕ → Bool → Words → Result (DynLibraryEntry × Words)
prepare t base dyn dyn_at file_name no_relocate m =
    scan_dynamic base no_relocate dyn_at dyn (at_base base) >>= λ l.
    check_needed dyn dyn_at l.first_needed l.last_needed >>= λ _.
    (if no_relocate
      then ok m
      else relocate t base
          (record l { ent = record l.ent { dylib_soname = soname_of l file_name } }) m)
    >>= λ m1. ok (record l.ent { dylib_soname = soname_of l file_name }, m1)

pub dynld_link :
    Tables → ℕ → List Dyn → ℕ → ℕ → Bool → DynldState → Words → Result (ℕ × Words) × DynldState
dynld_link t base dyn dyn_at file_name no_relocate s m =
    elim (prepare t base dyn dyn_at file_name no_relocate m) [
      | ok (ent, m1) ↦ insert_entry s ent m1
      | error code ↦ (error code, s)
      | stuck ↦ (stuck, s)
    ]
