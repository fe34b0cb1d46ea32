-- ===== src/Paging/Clone.antt =====
-- The copy of the page tables, `clone_page_table` of kernel/src/x86_64/paging.c.
pub mod Walk
pub mod Bits
pub mod Same
pub mod Steps
pub mod Loop
pub mod Root
use xinix.Base.{
  ℕ, zero, suc, ◌+◌, ◌-◌, ◌*◌, ◌/◌, ◌^◌, Bool, ◌&&◌, not, true, false, Option, none, some, ◌==◌,
  ltb, if◌then◌else◌, bit_and, bit_or, u64, sub64, not64, ◌>>=◌,
}
use xinix.Heap.{aligned_alloc}
use xinix.Paging.{Store, write_entry}

abbrev pub flag_mask : ℕ
flag_mask = 0x8000_0000_0000_0fff

abbrev pub addr_mask : ℕ
addr_mask = 0x000f_ffff_ffff_f000

-- An entry that stands for a table of the level below
abbrev pub descends : ℕ → ℕ → Bool
descends level entry = not (bit_and entry 1 == 0) && (ltb 1 level && bit_and entry 0x80 == 0)

-- The address of that table in the direct map
abbrev pub lower_table : ℕ → ℕ → ℕ
lower_table hhdm_off entry = u64 (bit_and entry addr_mask + hhdm_off)

-- The entry for the new table
abbrev pub clone_entry : ℕ → ℕ → ℕ → ℕ
clone_entry hhdm_off t entry =
    bit_or (bit_and entry flag_mask) (bit_and (sub64 t hhdm_off) addr_mask)

-- The loop over the entries from an index on, with the copy of the level below; `none` is a table at
-- the null pointer.
pub clone_entries : ℕ → ℕ → (ℕ → ℕ → Store → Option Store) → ℕ → ℕ → ℕ → ℕ → Store → Option Store
clone_entries hhdm_off level lower zero idx orig_table new_table s = some s
clone_entries hhdm_off level lower (suc more) idx orig_table new_table s =
    let entry = s.entry_at (orig_table + 8 * idx) in
    let (new_lower_table, heap) = aligned_alloc s.heap 0x1000 4096 in
    let cloned : Option Store = elim new_lower_table [
      | none ↦ none
      | some t ↦ lower (lower_table hhdm_off entry) t (
          write_entry (new_table + 8 * idx) (clone_entry hhdm_off t entry)
            (record s { heap = heap }))
    ] in
    let copied = some (write_entry (new_table + 8 * idx) entry s) in
    (if descends level entry then cloned else copied)
    >>= clone_entries hhdm_off level lower more (idx + 1) orig_table new_table

pub clone_page_table_level : ℕ → ℕ → ℕ → ℕ → Store → Option Store
clone_page_table_level hhdm_off zero orig_table new_table s =
    clone_entries hhdm_off 0 (λ orig new t. some t) 512 0 orig_table new_table s
clone_page_table_level hhdm_off (suc level) orig_table new_table s =
    clone_entries hhdm_off (suc level) (clone_page_table_level hhdm_off level) 512 0 orig_table
      new_table s

-- The new table, the new cr3, and the tables after; `none` is a table at the null pointer.
pub clone_page_table : ℕ → ℕ → Store → Option (ℕ × ℕ × Store)
clone_page_table hhdm_off cr3 s =
    let orig_pml4t = u64 (bit_and cr3 (not64 0xfff) + hhdm_off) in
    let (new_pml4t, heap) = aligned_alloc s.heap 0x1000 4096 in
    elim new_pml4t [
      | none ↦ none
      | some t ↦
          clone_page_table_level hhdm_off 4 orig_pml4t t (record s { heap = heap }) >>= λ after.
          some (t, bit_or (bit_and (sub64 t hhdm_off) (not64 0xfff)) (bit_and cr3 0xfff), after)
    ]
