-- ===== src/Elf/Scan.antt =====
-- The first loop of `loader_map_elf`, and the order of its checks.
use xinix.Base.{
  ℕ, ◌+◌, ◌≤◌, ◌≡◌, ◌≢◌, ◌⊎◌, inl, inr, refl, arith, Bool-cases, none, some, List, [], ◌∷◌, ◌==◌,
  bit_and, u64,
}
use xinix.Elf.{note_segment, Phdr, Found, scan_phdrs, pf_wx, pt_load}

-- No segment is both written to and executed.
unfoldable pub NoneWx : List Phdr → Type 0
NoneWx [] = Unit
NoneWx (p ∷ ps) = (bit_and p.p_flags pf_wx ≢ pf_wx) × NoneWx ps

-- Each loaded segment ends, as a word, at or below `top`.
unfoldable pub EndsBelow : ℕ → List Phdr → Type 0
EndsBelow top [] = Unit
EndsBelow top (p ∷ ps) = (p.p_type ≡ pt_load → u64 (p.p_paddr + p.p_memsz) ≤ top) × EndsBelow top ps

-- The loop fails exactly when a segment is both written to and executed; otherwise what it finds
-- bounds the end of each loaded segment.
pub scan_phdrs_lem :
    (ps : List Phdr) (f : Found)
    → ((scan_phdrs ps f ≡ none) × (NoneWx ps → ⊥))
      ⊎ (NoneWx ps
          × (g : Found) × (scan_phdrs ps f ≡ some g)
          × (f.last_rpa ≤ g.last_rpa)
          × EndsBelow g.last_rpa ps)
unfolding scan_phdrs NoneWx EndsBelow
scan_phdrs_lem [] f = inr (tt, f, refl, omega arith, tt)
scan_phdrs_lem (p ∷ ps) f = elim (Bool-cases (bit_and p.p_flags pf_wx == pf_wx)) [
  | inl wx ↦ inl (ground (arith, wx), λ (ok, _). ok (ground (arith, wx)))
  | inr fine ↦ elim (scan_phdrs_lem ps (note_segment p f)) [
    | inl (failed, why) ↦ inl (ground (arith, fine, failed), λ (_, ok). why ok)
    | inr (ok, g, found, above, ends) ↦ inr (
      (ground (arith, fine), ok),
      g,
      ground (arith, fine, found),
      ground (arith, above),
      ((λ load. ground (arith, load, above)), ends),
    )
  ]
]
