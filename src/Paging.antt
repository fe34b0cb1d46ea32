-- ===== src/Paging.antt =====
-- Page tables: kernel/src/x86_64/paging.c, over a memory of 64-bit entries by their addresses.
pub mod Flags
pub mod Rounds
pub mod Clone
pub mod Protect
mod Examples
use xinix.Base.{
  ℕ, zero, suc, ◌+◌, ◌-◌, ◌*◌, ◌/◌, ◌^◌, Bool, ◌&&◌, ◌||◌, not, true, false, Option, none, some,
  ◌==◌, ltb, leb, if◌then◌else◌, bit_and, bit_or, u64, sub64, not64, ◌>>>◌, ◌<<<◌,
}
use xinix.Heap.{Heap, aligned_alloc}

-- The memory of the tables and the heap that new tables come from
pub record Store : Type 0 where
  pub entry_at : ℕ → ℕ
  pub heap : Heap

abbrev pub write_entry : ℕ → ℕ → Store → Store
write_entry a v s = record s { entry_at = λ x. if x == a then v else s.entry_at x }

-- `memset(new_table, 0, sizeof(page_table_t))`
abbrev pub clear_table : ℕ → Store → Store
clear_table t s = record s {
  entry_at = λ x. if leb t x && ltb x (t + 4096) then 0 else s.entry_at x;
}

abbrev pub nx_bit : ℕ
nx_bit = 0x8000_0000_0000_0000

abbrev pub prot_write : ℕ
prot_write = 2

abbrev pub prot_exec : ℕ
prot_exec = 4

-- What `set_flags` leaves in the entry
pub set_flags : ℕ → ℕ → Bool → ℕ
set_flags entry mem_flags stay_permissive =
    let executed =
      if not (bit_and mem_flags prot_exec == 0) || stay_permissive
      then bit_and entry (not64 nx_bit)
      else bit_or entry nx_bit in
    if not (bit_and mem_flags prot_write == 0) || stay_permissive
    then bit_or executed 2
    else bit_and executed (not64 2)

-- `ADDR_SIGN_EXTEND`
abbrev pub addr_sign_extend : ℕ → ℕ
addr_sign_extend addr =
    if bit_and addr 0x0008_0000_0000_0000 == 0
    then bit_and addr 0x000f_ffff_ffff_ffff
    else bit_or addr 0xfff0_0000_0000_0000

-- How `add_to_hhdm` ends: with the tables, in a halt, with a null table, or not within the rounds
pub data Outcome : Type 0 where
  mapped : Store → Outcome
  halted null_table unfinished : Outcome

-- The address of the entry at a level
abbrev pub entry_p : ℕ → ℕ → ℕ → ℕ
entry_p page_table cur_level virt_addr =
    page_table + 8 * bit_and (virt_addr >>> (cur_level * 9 + 3)) 0x1ff

-- The part of the physical address that an entry of the level holds
abbrev pub masked_phys_addr : ℕ → ℕ → ℕ
masked_phys_addr cur_level phys_addr =
    bit_and (bit_and phys_addr 0x000f_ffff_ffff_ffff) (u64 ((2 ^ 64 - 1) <<< (cur_level * 9 + 3)))

-- The entry of a new page
abbrev pub page_entry : ℕ → ℕ → ℕ → ℕ
page_entry cur_level phys_addr mem_flags =
    let flagged = set_flags (masked_phys_addr cur_level phys_addr) mem_flags false in
    bit_or (if cur_level == 1 then flagged else bit_or flagged 0x80) 1

-- The arguments of `add_to_hhdm`, and the offset of the direct map
pub record Request : Type 0 where
  pub phys_addr : ℕ
  pub granularity : ℕ
  pub mem_flags : ℕ
  pub hhdm_off : ℕ

abbrev pub virt_addr : Request → ℕ
virt_addr q = u64 (q.phys_addr + q.hhdm_off)

-- The rounds of the loop
pub add_rounds : ℕ → Request → ℕ → ℕ → Store → Outcome
add_rounds zero q cur_level page_table s = unfinished
add_rounds (suc rounds) q cur_level page_table s =
    let p = entry_p page_table cur_level (virt_addr q) in
    let entry = s.entry_at p in
    let is_present = not (bit_and entry 1 == 0) in
    let matches = cur_level == q.granularity + 1 in
    let can_descend = ltb 1 cur_level && bit_and entry 0x80 == 0 in
    let opened = set_flags entry q.mem_flags true in
    let lower = addr_sign_extend (u64 (bit_and opened 0x000f_ffff_ffff_f000 + q.hhdm_off)) in
    let below = add_rounds rounds q (cur_level - 1) lower (write_entry p opened s) in
    let (new_table, heap) = aligned_alloc s.heap 0x1000 4096 in
    let again : ℕ → Outcome = λ t. add_rounds rounds q cur_level page_table (
      write_entry p (bit_or (set_flags (sub64 t q.hhdm_off) q.mem_flags true) 1)
        (clear_table t (record s { heap = heap }))) in
    if is_present
    then (if matches && not can_descend
        then mapped (write_entry p (set_flags entry q.mem_flags false) s)
        else if not matches && can_descend
        then below
        else halted)
    else if matches
    then mapped (write_entry p (page_entry cur_level q.phys_addr q.mem_flags) s)
    else elim new_table [ none ↦ null_table | some t ↦ again t ]

-- `add_to_hhdm`, from level 4; eight rounds are enough.
pub add_to_hhdm : Request → ℕ → Store → Outcome
add_to_hhdm q page_table s = add_rounds 8 q 4 page_table s
