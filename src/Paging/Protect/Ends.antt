-- ===== src/Paging/Protect/Ends.antt =====
-- The four nested loops of `vprotect`.
use xinix.Base.{
  ℕ, suc, ◌+◌, ◌-◌, ◌*◌, ◌/◌, ◌^◌, ◌≤◌, ◌<◌, ◌≡◌, refl, ◌∙◌, arith, Bool, true, false, Option, some,
  ltb, ltb→lt, sub64, ◌==◌, not, bit_and, u64, not64, if◌then◌else◌,
}
use xinix.Base.Bits.{bit_and_clear}
use xinix.Paging.Protect.{
  for_addr, Protect, entry_address, update_entry, permit, next_table, protect_entry, pages_more,
  protect_pages, protect_pde, pds_more, protect_pds, protect_pdpe, pdps_more, protect_pdps,
  protect_pml4e, base_address, last_address, vprotect,
}
use xinix.Paging.Protect.Bits.{permit_lem, protect_entry_lem}
use xinix.Paging.Protect.Loops.{
  Kept, Kept-trans, update_entry-Kept, both_below, next_lem, for_addr_lem,
}

module _ (c : Protect) (last : ℕ) (safe : last + 2 ^ 39 ≤ 2 ^ 64) where
  pages_lem :
      (pt pdp pd : ℕ) (m : ℕ → ℕ)
      → pdp < last
      → pdp ≤ pd
      → (after : ℕ → ℕ) × (protect_pages c last pt pdp pd m ≡ some after) × Kept m after
  unfolding protect_pages
  pages_lem pt pdp pd m low above =
      for_addr_lem 0x1000 0xffff_ffff_ffff_f000 pd (pdp / 2 ^ 12 + 512) (λ a. a / 2 ^ 12)
        (pages_more last pdp)
        (λ a before. some (update_entry (entry_address pt 12 a) (protect_entry c) before))
        (λ a more. omega (arith, low, safe, both_below a last (u64 (pdp + 0x20_0000)) more))
        (λ a more.
          let (below, near) = both_below a last (u64 (pdp + 0x20_0000)) more in
          let next = next_lem 12 52 a refl (omega (arith, safe, below)) in
          (omega (arith, next), omega (arith, next)))
        (λ a before from more. (
          update_entry (entry_address pt 12 a) (protect_entry c) before,
          refl,
          update_entry-Kept (entry_address pt 12 a) (protect_entry c) before (protect_entry_lem c),
        ))
        513 pd m (omega arith) (omega (arith, above))

  -- A turn above the last level: the entry is permitted, and a table is gone into.
  permitted_lem :
      (huge : Bool) (p : ℕ) (m : ℕ → ℕ) (deeper : Option (ℕ → ℕ))
      → ((after : ℕ → ℕ) × (deeper ≡ some after) × Kept (update_entry p permit m) after)
      → (after : ℕ → ℕ) × ((if huge then some (update_entry p permit m) else deeper) ≡ some after)
        × Kept m after
  permitted_lem true p m deeper goes =
      (update_entry p permit m, refl, update_entry-Kept p permit m permit_lem)
  permitted_lem false p m deeper (after, runs, same) = (
    after,
    runs,
    Kept-trans m (update_entry p permit m) after (update_entry-Kept p permit m permit_lem) same,
  )

  pde_lem :
      (pdt pdp pd : ℕ) (m : ℕ → ℕ)
      → pdp < last
      → pdp ≤ pd
      → (after : ℕ → ℕ) × (protect_pde c last pdt pdp pd m ≡ some after) × Kept m after
  pde_lem pdt pdp pd m low above =
      let p = entry_address pdt 21 pd in
      let permitted = update_entry p permit m in
      let table = next_table c (permitted p) in
      permitted_lem (not (bit_and (permitted p) 0x80 == 0)) p m
        (protect_pages c last table pdp pd permitted) (pages_lem table pdp pd permitted low above)

  pds_lem :
      (pdt pdp : ℕ) (m : ℕ → ℕ)
      → pdp < last
      → (after : ℕ → ℕ) × (protect_pds c last pdt pdp m ≡ some after) × Kept m after
  unfolding protect_pds
  pds_lem pdt pdp m low =
      for_addr_lem 0x20_0000 0xffff_ffff_ffe0_0000 pdp (pdp / 2 ^ 21 + 512) (λ a. a / 2 ^ 21)
        (pds_more last pdp) (protect_pde c last pdt pdp)
        (λ a more. omega (arith, low, safe, both_below a last (u64 (pdp + 0x4000_0000)) more))
        (λ a more.
          let (below, near) = both_below a last (u64 (pdp + 0x4000_0000)) more in
          let next = next_lem 21 43 a refl (omega (arith, safe, below)) in
          (omega (arith, next), omega (arith, next)))
        (λ a before from more. pde_lem pdt pdp a before low from) 513 pdp m (omega arith)
        (omega arith)

  pdpe_lem :
      (pdpt pdp : ℕ) (m : ℕ → ℕ)
      → pdp < last
      → (after : ℕ → ℕ) × (protect_pdpe c last pdpt pdp m ≡ some after) × Kept m after
  pdpe_lem pdpt pdp m low =
      let p = entry_address pdpt 30 pdp in
      let permitted = update_entry p permit m in
      let table = next_table c (permitted p) in
      permitted_lem (not (bit_and (permitted p) 0x80 == 0)) p m
        (protect_pds c last table pdp permitted) (pds_lem table pdp permitted low)

  pdps_lem :
      (pdpt pml4 : ℕ) (m : ℕ → ℕ)
      → pml4 < last
      → (after : ℕ → ℕ) × (protect_pdps c last pdpt pml4 m ≡ some after) × Kept m after
  unfolding protect_pdps
  pdps_lem pdpt pml4 m low =
      for_addr_lem 0x4000_0000 0xffff_ffff_c000_0000 pml4 (pml4 / 2 ^ 30 + 512) (λ a. a / 2 ^ 30)
        (pdps_more last pml4) (protect_pdpe c last pdpt)
        (λ a more. omega (arith, low, safe, both_below a last (u64 (pml4 + 0x80_0000_0000)) more))
        (λ a more.
          let (below, near) = both_below a last (u64 (pml4 + 0x80_0000_0000)) more in
          let next = next_lem 30 34 a refl (omega (arith, safe, below)) in
          (omega (arith, next), omega (arith, next)))
        (λ a before from more.
          pdpe_lem pdpt a before (both_below a last (u64 (pml4 + 0x80_0000_0000)) more).0)
        513 pml4 m (omega arith) (omega arith)

  pml4e_lem :
      (pml4 : ℕ) (m : ℕ → ℕ)
      → pml4 < last
      → (after : ℕ → ℕ) × (protect_pml4e c last pml4 m ≡ some after) × Kept m after
  pml4e_lem pml4 m low =
      let pml4t = u64 (bit_and c.cr3 (not64 0xfff) + c.hhdm_offset) in
      let p = entry_address pml4t 39 pml4 in
      let permitted = update_entry p permit m in
      let table = next_table c (permitted p) in
      permitted_lem false p m (protect_pdps c last table pml4 permitted)
        (pdps_lem table pml4 permitted low)

-- Where the last page starts at least 512 GiB before the end of the addresses, `vprotect` ends, and changes nothing in any entry
-- but bit 5 and NX: the bit that permits writing, bit 1, and the address stay as they are.
pub vprotect-Kept :
    (c : Protect) (base page_count : ℕ) (m : ℕ → ℕ)
    → last_address base page_count + 2 ^ 39 ≤ 2 ^ 64
    → (after : ℕ → ℕ) × (vprotect c base page_count m ≡ some after) × Kept m after
unfolding vprotect
vprotect-Kept c base page_count m safe =
    let last = last_address base page_count in
    for_addr_lem 0x80_0000_0000 0xffff_ff80_0000_0000 0 (last / 2 ^ 39) (λ a. a / 2 ^ 39)
      (λ a. ltb a last) (protect_pml4e c last) (λ a more. omega (arith, ltb→lt a last more))
      (λ a more.
        let next = next_lem 39 25 a refl (omega (arith, safe, ltb→lt a last more)) in
        (omega (arith, next), omega (arith, next)))
      (λ a before from more. pml4e_lem c last safe a before (ltb→lt a last more))
      (suc (last / 2 ^ 39 - base_address base / 2 ^ 39)) (base_address base) m (omega arith)
      (omega arith)

one_page : (base : ℕ) → base < 2 ^ 64 → last_address base 1 ≡ base_address base
one_page base word =
    let start : base_address base ≡ base / 2 ^ 12 * 2 ^ 12 = bit_and_clear 12 52 base word in
    let end = sub64 (u64 (base_address base + 1 * 0x1000)) 1 in
    let page : end ≡ base / 2 ^ 12 * 2 ^ 12 + 0xfff = omega (arith, start, word) in
    bit_and_clear 12 52 end (omega arith) ∙ omega (arith, page, start)

-- A call for one page changes nothing.
vprotect-one_page :
    (c : Protect) (base : ℕ) (m : ℕ → ℕ) → base < 2 ^ 64 → vprotect c base 1 m ≡ some m
unfolding vprotect for_addr
vprotect-one_page c base m word =
    let stops : ltb (base_address base) (last_address base 1) ≡ false =
      ground (arith, one_page base word) in
    rw (vprotect, for_addr, stops) refl
