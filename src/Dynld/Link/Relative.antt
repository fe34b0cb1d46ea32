-- ===== src/Dynld/Link/Relative.antt =====
-- Relative relocations under `dynld_link`.
use xinix.Base.{
  ℕ, zero, suc, ◌+◌, ◌*◌, ◌/◌, ◌^◌, ◌≤◌, ◌<◌, ◌≡◌, ◌≢◌, refl, ap₂, sym, ◌∙◌, arith, inl, inr,
  Bool-cases, Bool, true, false, ◌||◌, ◌==◌, ltb, if◌then◌else◌, bit_and, u64, ◌>>>◌,
}
use native.Mathlib.Decide.{dec_le}
use xinix.Dynld.{Result, ok, error, DynLibraryEntry, Tables, Words, store_word}
use xinix.Dynld.Scan.{Link, dt_rela}
use xinix.Dynld.Relr.{relr_loop}
use xinix.Dynld.Apply.{
  drel_relative, dynld_sym_value, find_symbol, apply_kind, apply_rel, symbol_of, do_rel,
}
use xinix.Dynld.Link.{pass_over, relocate}

module _ (t : Tables) (base table : ℕ) where
  -- The place and the value of relocation number `i`
  abbrev pub place : ℕ → ℕ
  place i = u64 (base + (t.reloc_at table i).r_offset)

  abbrev pub value : ℕ → ℕ
  value i = u64 (base + (t.reloc_at table i).r_addend)

  -- The relocations from `i` to before `end` are relative, without a symbol.
  abbrev pub AreRelative : ℕ → ℕ → Type 0
  AreRelative i end = (j : ℕ) → i ≤ j → j < end → (t.reloc_at table j).r_info ≡ drel_relative

  abbrev pub PlacesDiffer : ℕ → ℕ → Type 0
  PlacesDiffer i end = (j k : ℕ) → i ≤ j → j < k → k < end → place j ≢ place k

  -- The words once they are applied
  relocated : ℕ → ℕ → Words → Words
  relocated zero i m = m
  relocated (suc left) i m = relocated left (i + 1) (store_word m (place i) (value i))

  module _ (ent : DynLibraryEntry) (at_base : ent.dylib_base ≡ base)
      (no_symtab : ent.dylib_symtab ≡ 0) where
    apply_relative :
        (i : ℕ) (put_off : Bool) (m : Words)
        → (t.reloc_at table i).r_info ≡ drel_relative
        → apply_rel t.call
            (place i)
            (bit_and (t.reloc_at table i).r_info 0xffff_ffff)
            (t.reloc_at table i).r_addend
            false
            (symbol_of t ent.dylib_symtab ((t.reloc_at table i).r_info >>> 32))
            put_off
            put_off
            ent
            m
          ≡ ok (0, if put_off then m else store_word m (place i) (value i))
    unfolding apply_rel find_symbol apply_kind
    apply_relative i false m relative =
        let sum : base + (t.reloc_at table i).r_addend + 0 ≡ base + (t.reloc_at table i).r_addend =
          omega arith in
        rw (relative, no_symtab, at_base, sum) refl
    apply_relative i true m relative = rw (relative, no_symtab) refl

    -- A pass applies them all, or puts them all off, and says that some were put off.
    do_rel_relative :
        (left i : ℕ) (put_off has_defered : Bool) (m : Words)
        → AreRelative i (i + left)
        → do_rel left t base ent true put_off table i has_defered m
          ≡ ok (has_defered || ltb 0 left, if put_off then m else relocated left i m)
    unfolding do_rel relocated
    do_rel_relative zero i put_off has_defered m relative = ground arith
    do_rel_relative (suc left) i put_off has_defered m relative =
        let one = apply_relative i put_off m (relative i (omega arith) (omega arith)) in
        let m1 : Words = if put_off then m else store_word m (place i) (value i) in
        let rest =
          do_rel_relative left (i + 1) put_off (has_defered || true) m1
            (λ j low high. relative j (omega arith) (omega arith)) in
        let flag : ((has_defered || true) || ltb 0 left) ≡ (has_defered || ltb 0 (suc left)) =
          ground arith in
        let pair : Bool → Words → Result (Bool × Words) = λ f w. ok (f, w) in
        rw (one, do_rel) (rest ∙ ap₂ pair flag (words put_off left i m))
      where
        words :
            (put_off : Bool) (left i : ℕ) (m : Words)
            → (if put_off
                then (if put_off then m else store_word m (place i) (value i))
                else relocated left
                    (i + 1)
                    (if put_off then m else store_word m (place i) (value i)))
              ≡ (if put_off then m else relocated left (i + 1) (store_word m (place i) (value i)))
        words true left i m = refl
        words false left i m = refl

  relocated-others :
      (left i : ℕ) (m : Words) (x : ℕ)
      → ((j : ℕ) → i ≤ j → j < i + left → place j ≢ x)
      → relocated left i m x ≡ m x
  unfolding relocated
  relocated-others zero i m x apart = refl
  relocated-others (suc left) i m x apart =
      let other : (x == place i) ≡ false = ground (arith, apart i (omega arith) (omega arith)) in
      relocated-others left (i + 1) (store_word m (place i) (value i)) x
        (λ j low high. apart j (omega arith) (omega arith))
      ∙ rw other refl

  relocated-at :
      (left i : ℕ) (m : Words) (j : ℕ)
      → PlacesDiffer i (i + left)
      → i ≤ j
      → j < i + left
      → relocated left i m (place j) ≡ value j
  unfolding relocated
  relocated-at zero i m j differ low high = absurd (omega arith)
  relocated-at (suc left) i m j differ low high = elim (dec_le j i) [
    | yes at ↦
        let here : j ≡ i = omega arith in
        let self : (place i == place i) ≡ true = ground arith in
        rw here (
          relocated-others left (i + 1) (store_word m (place i) (value i)) (place i)
            (λ k below above e. differ i k (omega arith) (omega arith) (omega arith) (sym e))
          ∙ rw self refl)
    | no before ↦
        relocated-at left (i + 1) (store_word m (place i) (value i)) j
          (λ a b p q r. differ a b (omega arith) q (omega arith)) (omega arith) (omega arith)
  ]

-- A library with nothing to relocate but `l.relcount` relative entries of the second kind
pub record IsRelative (t : Tables) (base : ℕ) (l : Link) : Type 0 where
  pub at_base : l.ent.dylib_base ≡ base
  pub no_symtab : l.ent.dylib_symtab ≡ 0
  pub kind : l.relty ≡ dt_rela
  pub lazy : l.binds_now ≡ false
  pub no_relr : l.relr_count ≡ 0
  pub relative : AreRelative t base l.rel_table 0 l.relcount
  pub differ : PlacesDiffer t base l.rel_table 0 l.relcount

relocate_relative :
    (t : Tables) (base : ℕ) (l : Link) (m : Words)
    → IsRelative t base l
    → relocate t base l m ≡ ok (relocated t base l.rel_table l.relcount 0 m)
unfolding relocate relr_loop pass_over
relocate_relative t base l m rel =
    let n = l.relcount in
    let from_start : AreRelative t base l.rel_table 0 (0 + n) =
      λ j low high. rel.relative j low (omega arith) in
    let first =
      do_rel_relative t base l.rel_table l.ent rel.at_base rel.no_symtab n 0 false false m
        from_start in
    let second =
      do_rel_relative t base l.rel_table l.ent rel.at_base rel.no_symtab n 0 true false
        (relocated t base l.rel_table n 0 m) from_start in
    elim (Bool-cases (ltb 0 n)) [
      | inl any ↦ rw (rel.no_relr, rel.kind, rel.lazy, first, any, second) refl
      | inr nothing ↦ rw (rel.no_relr, rel.kind, rel.lazy, first, nothing) refl
    ]

-- Of a library that does not bind at once, without a symbol table and without RELR words, whose
-- relocations are of the kind DT_RELA and all relative, at places that differ, the relocations end, and leave at each place the base plus its addend and every other word as it was.
pub relocate_relative_lem :
    (t : Tables) (base : ℕ) (l : Link) (m : Words)
    → IsRelative t base l
    → (w : Words) × (relocate t base l m ≡ ok w)
      × ((j : ℕ) → j < l.relcount → w (place t base l.rel_table j) ≡ value t base l.rel_table j)
      × ((x : ℕ) → ((j : ℕ) → j < l.relcount → place t base l.rel_table j ≢ x) → w x ≡ m x)
relocate_relative_lem t base l m rel = (
  relocated t base l.rel_table l.relcount 0 m,
  relocate_relative t base l m rel,
  λ j below.
      relocated-at t base l.rel_table l.relcount 0 m j
        (λ a b p q r. rel.differ a b p q (omega arith)) (omega arith) (omega arith),
  λ x apart. relocated-others t base l.rel_table l.relcount 0 m x (λ j p q. apart j (omega arith)),
)

-- A relocation against the null symbol of a symbol table makes the linking fail with -1, also one
-- that needs no symbol.
pub do_rel-null_symbol :
    (left : ℕ) (t : Tables) (base : ℕ) (ent : DynLibraryEntry) (is_rela put_off : Bool)
    (table i : ℕ) (has_defered : Bool) (m : Words)
    → 0 < ent.dylib_symtab
    → (t.reloc_at table i).r_info < 2 ^ 32
    → (t.sym_at ent.dylib_symtab 0).st_shndx ≡ 0
    → do_rel (suc left) t base ent is_rela put_off table i has_defered m ≡ error 1
unfolding do_rel apply_rel find_symbol dynld_sym_value
do_rel-null_symbol left t base ent is_rela put_off table i has_defered m given first null =
    let number : (t.reloc_at table i).r_info / 2 ^ 32 ≡ 0 = omega (arith, first) in
    let there : (ent.dylib_symtab + 24 * 0 == 0) ≡ false = ground (arith, given) in
    rw (number, there, null) refl
