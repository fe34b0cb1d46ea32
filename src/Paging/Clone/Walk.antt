-- ===== src/Paging/Clone/Walk.antt =====
-- What the processor reads in page tables, and the tables that it reaches.
use xinix.Base.{
  false, arith, refl, ℕ, zero, suc, ◌+◌, ◌*◌, ◌≤◌, ◌<◌, ◌≡◌, true, List, [], ◌∷◌, if◌then◌else◌,
  bit_and, ◌>>>◌,
}
use xinix.Paging.Clone.{descends, lower_table, flag_mask}

-- The index of an address in a table of a level
abbrev pub index : ℕ → ℕ → ℕ
index level virt_addr = bit_and (virt_addr >>> (level * 9 + 3)) 0x1ff

-- What the processor reads on the way to an address: the flags of the entries that stand for tables,
-- and the whole of the last entry
abbrev pub walk : ℕ → ℕ → (ℕ → ℕ) → ℕ → ℕ → List ℕ
walk hhdm_off zero m table va = m (table + 8 * index 0 va) ∷ []
walk hhdm_off (suc level) m table va =
    let entry = m (table + 8 * index (suc level) va) in
    let deeper = walk hhdm_off level m (lower_table hhdm_off entry) va in
    if descends (suc level) entry then bit_and entry flag_mask ∷ deeper else entry ∷ []

-- A table, and all that are reached from it, lie below an address.
abbrev pub IsBelow : ℕ → ℕ → ℕ → (ℕ → ℕ) → ℕ → Type 0
IsBelow hhdm_off base zero m table = table + 4096 ≤ base
IsBelow hhdm_off base (suc level) m table =
    (table + 4096 ≤ base)
    × ((i : ℕ)
        → i < 512
        → descends (suc level) (m (table + 8 * i)) ≡ true
        → IsBelow hhdm_off base level m (lower_table hhdm_off (m (table + 8 * i))))

-- How many tables hang below the entries from an index on
abbrev pub tables_from : ℕ → ℕ → (ℕ → ℕ) → (ℕ → ℕ) → ℕ → ℕ → ℕ → ℕ
tables_from hhdm_off level below m zero idx table = 0
tables_from hhdm_off level below m (suc more) idx table =
    let entry = m (table + 8 * idx) in
    (if descends level entry then suc (below (lower_table hhdm_off entry)) else 0)
    + tables_from hhdm_off level below m more (idx + 1) table

unfoldable pub tables : ℕ → ℕ → (ℕ → ℕ) → ℕ → ℕ
tables hhdm_off zero m table = tables_from hhdm_off 0 (λ t. 0) m 512 0 table
tables hhdm_off (suc level) m table =
    tables_from hhdm_off (suc level) (tables hhdm_off level m) m 512 0 table

-- Entries that lead to no table have none below them.
pub tables_from-none :
    (hhdm_off level : ℕ) (below : ℕ → ℕ) (m : ℕ → ℕ) (more idx table : ℕ)
    → ((i : ℕ) → idx ≤ i → i < idx + more → descends level (m (table + 8 * i)) ≡ false)
    → tables_from hhdm_off level below m more idx table ≡ 0
tables_from-none hhdm_off level below m zero idx table leaf = refl
tables_from-none hhdm_off level below m (suc more) idx table leaf =
    let here = leaf idx (omega arith) (omega arith) in
    let rest =
      tables_from-none hhdm_off level below m more (idx + 1) table
        (λ i from to. leaf i (omega (arith, from)) (omega (arith, to))) in
    rw (here, rest) refl

-- A first entry that leads to a table with none below it, and no more tables behind
pub tables_from-one :
    (hhdm_off level : ℕ) (below : ℕ → ℕ) (m : ℕ → ℕ) (more idx table : ℕ)
    → descends level (m (table + 8 * idx)) ≡ true
    → below (lower_table hhdm_off (m (table + 8 * idx))) ≡ 0
    → tables_from hhdm_off level below m more (idx + 1) table ≡ 0
    → tables_from hhdm_off level below m (suc more) idx table ≡ 1
tables_from-one hhdm_off level below m more idx table deep lower rest = rw (deep, lower, rest) refl
