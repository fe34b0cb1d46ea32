-- ===== src/Dynld/Examples.antt =====
-- The dynamic loader at inputs.
use xinix.Base.{
  ℕ, suc, ◌+◌, ◌*◌, ◌<◌, ◌≡◌, ◌≢◌, refl, arith, false, if◌then◌else◌, List, [], ◌∷◌, u64, replicate,
}
use xinix.Dynld.{ok, Dyn, Tables, Words, no_library}
use xinix.Dynld.Scan.{Link, at_base}
use xinix.Dynld.Relr.{relr_bits, bit_at, relr_bits_lem}
use xinix.Dynld.Link.{DynldState, prepare, relocate, dynld_link}
use xinix.Dynld.Link.Table.{Keeps, Linked, dynld_link-Keeps}
use xinix.Dynld.Link.Relative.{place, value, relocate_relative_lem}

abbrev entry : ℕ → ℕ → Dyn
entry tag v = record { d_tag = tag; d_val = v }

-- A library with a string table, two relative relocations, and an end
abbrev section : List Dyn
section = entry 5 0x300 ∷ entry 7 0x400 ∷ entry 8 48 ∷ entry 0 0 ∷ []

abbrev scanned : Link
scanned = record (at_base 0x1000) {
  ent = record (at_base 0x1000).ent { dylib_strtab = 0x1300 };
  rel_table = 0x1400;
  relty = 7;
  relcount = 2;
}

abbrev image : Tables
image = record {
  sym_at = λ p i. record {
    st_name = 0;
    st_info = 0;
    st_other = 0;
    st_shndx = 0;
    st_value = 0;
    st_size = 0;
  };
  reloc_at = λ p i. record { r_offset = 16 * i; r_info = 8; r_addend = 0x500 + i };
  call = λ p. p;
}

relocate_relative_lem_example :
    (w : Words) × (relocate image 0x1000 scanned (λ x. 0) ≡ ok w)
    × ((j : ℕ) → j < 2 → w (place image 0x1000 0x1400 j) ≡ value image 0x1000 0x1400 j)
    × ((x : ℕ) → ((j : ℕ) → j < 2 → place image 0x1000 0x1400 j ≢ x) → w x ≡ 0)
relocate_relative_lem_example =
    relocate_relative_lem image 0x1000 scanned (λ x. 0)
      (record {
        at_base = refl;
        no_symtab = refl;
        kind = refl;
        lazy = refl;
        no_relr = refl;
        relative = λ j low high. refl;
        differ = λ j k low less high e. omega arith;
      })

abbrev no_libraries : DynldState
no_libraries = record {
  dynld_lock_and_offset = 0;
  entries = replicate 63 no_library;
  entries_at = 0x8000;
}

dynld_link-Keeps_example :
    Keeps 0 no_libraries
      (dynld_link image 0x1000 section 0x2000 0x700 false no_libraries (λ x. 0)).1
    × Linked 0 no_libraries
        (dynld_link image 0x1000 section 0x2000 0x700 false no_libraries (λ x. 0)).1
        (prepare image 0x1000 section 0x2000 0x700 false (λ x. 0))
        (dynld_link image 0x1000 section 0x2000 0x700 false no_libraries (λ x. 0)).0
dynld_link-Keeps_example =
    dynld_link-Keeps 0 image 0x1000 section 0x2000 0x700 false no_libraries (λ x. 0)
      (record { offset = refl; within = omega arith; places = refl })

relr_bits_lem_example :
    ((k : ℕ)
      → (relr_bits 64 0x1000 11 0x2000 (λ x. 1)).1 (0x2000 + 8 * suc k)
        ≡ (if bit_at (suc k) 11 then u64 (1 + 0x1000) else 1))
    × ((x : ℕ)
        → ((k : ℕ) → x ≢ 0x2000 + 8 * suc k)
        → (relr_bits 64 0x1000 11 0x2000 (λ x. 1)).1 x ≡ 1)
    × ((relr_bits 64 0x1000 11 0x2000 (λ x. 1)).0 ≡ 0x2000 + 8 * 4)
relr_bits_lem_example =
    relr_bits_lem 3 0x1000 11 0x2000 (λ x. 1) (omega arith) (omega arith) (omega arith)
