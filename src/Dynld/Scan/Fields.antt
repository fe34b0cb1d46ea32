-- ===== src/Dynld/Scan/Fields.antt =====
-- What a scan that succeeds has read.
use xinix.Base.{
  ℕ, ◌+◌, ◌≡◌, ap, ◌∙◌, arith, inl, inr, Bool-cases, Bool, List, [], ◌∷◌, if◌then◌else◌, u32, u64,
}
use xinix.Dynld.{ok, >>=_succeeds, Dyn}
use xinix.Dynld.Tags.{DynTag, dyn_tag, is_null, null, pltgot, strtab, symtab, pltrel, jmprel}
use xinix.Dynld.Scan.{Link, scan_entry, scan_dynamic}

-- The fields of the entry that later parts read
pub record Fields : Type 0 where
  pub strtab_at : ℕ
  pub symtab_at : ℕ
  pub pltgot_at : ℕ
  pub jmprel_at : ℕ
  pub jmprel_type : ℕ

abbrev pub fields : Link → Fields
fields l = record {
  strtab_at = l.ent.dylib_strtab;
  symtab_at = l.ent.dylib_symtab;
  pltgot_at = l.ent.dylib_pltgot;
  jmprel_at = l.ent.dylib_plt_rel;
  jmprel_type = l.ent.dylib_jmprel_type;
}

-- An entry sets the field of its tag.
abbrev pub set_field : ℕ → DynTag → ℕ → Fields → Fields
set_field base strtab v f = record f { strtab_at = u64 (base + v) }
set_field base symtab v f = record f { symtab_at = u64 (base + v) }
set_field base pltgot v f = record f { pltgot_at = u64 (base + v) }
set_field base jmprel v f = record f { jmprel_at = u64 (base + v) }
set_field base pltrel v f = record f { jmprel_type = u32 v }
set_field base t v f = f

-- The entries up to DT_NULL, one after the other
abbrev pub set_fields : ℕ → List Dyn → Fields → Fields
set_fields base [] f = f
set_fields base (d ∷ ds) f =
    if is_null (dyn_tag d.d_tag)
    then f
    else set_fields base ds (set_field base (dyn_tag d.d_tag) d.d_val f)

scan_entry-fields :
    (base : ℕ) (no_relocate : Bool) (dynent v : ℕ) (l : Link) (t : DynTag) (r : Link)
    → scan_entry base no_relocate dynent v l t ≡ ok r
    → fields r ≡ set_field base t v (fields l)
unfolding scan_entry
scan_entry-fields base no_relocate dynent v l null r e = ground (arith, e)
scan_entry-fields base no_relocate dynent v l _ r e = ground (arith, e)

-- After a scan that succeeds the string table, the symbol table, the table of offsets and the jump
-- relocations with their kind are those of the last entry of their tag before DT_NULL.
pub scan_dynamic-fields :
    (base : ℕ) (no_relocate : Bool) (dynent : ℕ) (ds : List Dyn) (l r : Link)
    → scan_dynamic base no_relocate dynent ds l ≡ ok r
    → fields r ≡ set_fields base ds (fields l)
unfolding scan_dynamic
scan_dynamic-fields base no_relocate dynent [] l r e = cc
scan_dynamic-fields base no_relocate dynent (d ∷ ds) l r e =
    elim (Bool-cases (is_null (dyn_tag d.d_tag))) [
      | inl last ↦ ground (arith, last, e)
      | inr more ↦
          let entry = scan_entry base no_relocate dynent d.d_val l (dyn_tag d.d_tag) in
          let (l1, first, others) =
            >>=_succeeds entry (λ l1. scan_dynamic base no_relocate (dynent + 16) ds l1)
              (rw more at e) in
          rw more (
            scan_dynamic-fields base no_relocate (dynent + 16) ds l1 r others
            ∙ ap (set_fields base ds)
                (scan_entry-fields base no_relocate dynent d.d_val l (dyn_tag d.d_tag) l1 first))
    ]
