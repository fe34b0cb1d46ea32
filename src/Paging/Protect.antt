-- ===== src/Paging/Protect.antt =====
-- The change of protections, `vprotect` of prekernel/shared/x86_64/src/paging.c, over a memory of
-- 64-bit entries by their addresses. What the processor keeps of old entries is left out.
pub mod Bits
pub mod Loops
pub mod Ends
use xinix.Base.{
  ℕ, zero, suc, ◌+◌, ◌-◌, ◌*◌, ◌/◌, ◌^◌, Bool, ◌&&◌, not, true, false, Option, none, some, ◌==◌,
  ltb, if◌then◌else◌, bit_and, bit_or, u64, sub64, not64, ◌>>>◌, ◌>>=◌,
}
use xinix.Paging.{nx_bit, prot_write, prot_exec}

-- A loop over addresses, which goes on at the next multiple of a power of two; `none` is a loop that
-- does not end in the rounds.
pub for_addr :
    ℕ → ℕ → ℕ → (ℕ → Bool) → (ℕ → (ℕ → ℕ) → Option (ℕ → ℕ)) → ℕ → (ℕ → ℕ) → Option (ℕ → ℕ)
for_addr zero size mask more body addr m = none
for_addr (suc rounds) size mask more body addr m =
    let rest =
      body addr m >>= for_addr rounds size mask more body (bit_and (u64 (addr + size)) mask) in
    if more addr then rest else some m

-- What a call of `vprotect` works with: the offset of the direct map, the register, whether the
-- processor has NX, and the flags
pub record Protect : Type 0 where
  pub hhdm_offset : ℕ
  pub cr3 : ℕ
  pub nx_detected : Bool
  pub prot_flags : ℕ

-- The address of the entry for an address, from the bit at which its index starts
abbrev pub entry_address : ℕ → ℕ → ℕ → ℕ
entry_address table shift addr = table + 8 * bit_and (addr >>> shift) 0x1ff

abbrev pub update_entry : ℕ → (ℕ → ℕ) → (ℕ → ℕ) → ℕ → ℕ
update_entry p f m x = if x == p then f (m p) else m x

-- An entry above the last level: the bit that is called writable is set, NX is cleared.
abbrev pub permit : ℕ → ℕ
permit e = bit_and (bit_or e 0x20) (not64 nx_bit)

-- The table that an entry leads to
abbrev pub next_table : Protect → ℕ → ℕ
next_table c e = u64 (bit_and e 0x000f_ffff_ffff_f000 + c.hhdm_offset)

-- An entry of the last level
abbrev pub protect_entry : Protect → ℕ → ℕ
protect_entry c e =
    let nx = c.nx_detected && bit_and c.prot_flags prot_exec == 0 in
    let written =
      if bit_and c.prot_flags prot_write == 0 then bit_and e (not64 0x20) else bit_or e 0x20 in
    if nx then bit_or written nx_bit else bit_and written (not64 nx_bit)

abbrev pub table_rounds : ℕ
table_rounds = 514

abbrev pub pages_more : ℕ → ℕ → ℕ → Bool
pages_more last_address addr_pdp a = ltb a last_address && ltb a (u64 (addr_pdp + 0x20_0000))

-- The innermost loop
pub protect_pages : Protect → ℕ → ℕ → ℕ → ℕ → (ℕ → ℕ) → Option (ℕ → ℕ)
protect_pages c last_address pt addr_pdp addr_pd m =
    for_addr table_rounds 0x1000 0xffff_ffff_ffff_f000 (pages_more last_address addr_pdp)
      (λ a before. some (update_entry (entry_address pt 12 a) (protect_entry c) before)) addr_pd m

-- A turn of the loop over the directory: a page of 2 MiB is left permitted.
abbrev pub protect_pde : Protect → ℕ → ℕ → ℕ → ℕ → (ℕ → ℕ) → Option (ℕ → ℕ)
protect_pde c last_address pdt addr_pdp addr_pd m =
    let pde_p = entry_address pdt 21 addr_pd in
    let permitted = update_entry pde_p permit m in
    let deeper =
      protect_pages c last_address (next_table c (permitted pde_p)) addr_pdp addr_pd permitted in
    if not (bit_and (permitted pde_p) 0x80 == 0) then some permitted else deeper

abbrev pub pds_more : ℕ → ℕ → ℕ → Bool
pds_more last_address addr_pdp a = ltb a last_address && ltb a (u64 (addr_pdp + 0x4000_0000))

pub protect_pds : Protect → ℕ → ℕ → ℕ → (ℕ → ℕ) → Option (ℕ → ℕ)
protect_pds c last_address pdt addr_pdp m =
    for_addr table_rounds 0x20_0000 0xffff_ffff_ffe0_0000 (pds_more last_address addr_pdp)
      (protect_pde c last_address pdt addr_pdp) addr_pdp m

-- A turn of the loop over the pointers to directories: a page of 1 GiB is left permitted.
abbrev pub protect_pdpe : Protect → ℕ → ℕ → ℕ → (ℕ → ℕ) → Option (ℕ → ℕ)
protect_pdpe c last_address pdpt addr_pdp m =
    let pdpe_p = entry_address pdpt 30 addr_pdp in
    let permitted = update_entry pdpe_p permit m in
    let deeper = protect_pds c last_address (next_table c (permitted pdpe_p)) addr_pdp permitted in
    if not (bit_and (permitted pdpe_p) 0x80 == 0) then some permitted else deeper

abbrev pub pdps_more : ℕ → ℕ → ℕ → Bool
pdps_more last_address addr_pml4 a = ltb a last_address && ltb a (u64 (addr_pml4 + 0x80_0000_0000))

pub protect_pdps : Protect → ℕ → ℕ → ℕ → (ℕ → ℕ) → Option (ℕ → ℕ)
protect_pdps c last_address pdpt addr_pml4 m =
    for_addr table_rounds 0x4000_0000 0xffff_ffff_c000_0000 (pdps_more last_address addr_pml4)
      (protect_pdpe c last_address pdpt) addr_pml4 m

-- A turn of the outermost loop
abbrev pub protect_pml4e : Protect → ℕ → ℕ → (ℕ → ℕ) → Option (ℕ → ℕ)
protect_pml4e c last_address addr_pml4 m =
    let pml4t = u64 (bit_and c.cr3 (not64 0xfff) + c.hhdm_offset) in
    let pml4e_p = entry_address pml4t 39 addr_pml4 in
    let permitted = update_entry pml4e_p permit m in
    protect_pdps c last_address (next_table c (permitted pml4e_p)) addr_pml4 permitted

abbrev pub base_address : ℕ → ℕ
base_address base = bit_and base 0xffff_ffff_ffff_f000

abbrev pub last_address : ℕ → ℕ → ℕ
last_address base page_count =
    bit_and (sub64 (u64 (base_address base + page_count * 0x1000)) 1) 0xffff_ffff_ffff_f000

-- The memory of the entries after the call, which gives back `base`
pub vprotect : Protect → ℕ → ℕ → (ℕ → ℕ) → Option (ℕ → ℕ)
vprotect c base page_count m =
    let last = last_address base page_count in
    let rounds = suc (suc (last / 2 ^ 39 - base_address base / 2 ^ 39)) in
    for_addr rounds 0x80_0000_0000 0xffff_ff80_0000_0000 (λ a. ltb a last) (protect_pml4e c last)
      (base_address base) m
