-- ===== src/Prekernel.antt =====
-- The prekernel's allocator, prekernel/shared/src/alloc.c, and the memory map that it hands to the
-- kernel: prekernel/limine/src/main.c and `call_kmain` of prekernel/shared/src/entry.c.
pub mod Allocator
pub mod Rewrite
pub mod Handover
mod Examples
use xinix.Base.{
  ℕ, suc, ◌+◌, ◌-◌, ◌^◌, Option, none, some, List, [], ◌∷◌, ◌==◌, if◌then◌else◌, u64, sub64, set,
  length, bit_and, not64,
}
use mathlib.Core.Option
use xinix.Heap.{MemmapEntry, memmap_usable, largest, align_up, max_align}

-- `dual_address_t`
pub record DualAddress : Type 0 where
  pub physical : ℕ
  pub virtual : ℕ

-- `alloc_area_start` and `alloc_pos`
pub record PreAlloc : Type 0 where
  pub area_start : DualAddress
  pub pos : DualAddress

pub init_alloc : DualAddress → ℕ → PreAlloc
init_alloc start size = record { area_start = start; pos = start }

-- `aligned_alloc`; it always succeeds.
pub prekernel_aligned_alloc : PreAlloc → ℕ → ℕ → ℕ × PreAlloc
prekernel_aligned_alloc a alignment size =
    let new_start_addr = align_up a.pos.virtual alignment in
    let new_end_addr = u64 (new_start_addr + size) in
    (
      new_start_addr,
      record a {
        pos = record {
          physical = u64 (a.pos.physical + sub64 new_end_addr a.pos.virtual);
          virtual = new_end_addr;
        };
      },
    )

pub prekernel_malloc : PreAlloc → ℕ → ℕ × PreAlloc
prekernel_malloc a size = prekernel_aligned_alloc a max_align size

-- The loop of `find_and_init_alloc` is that of the kernel's `init_heap`. `none` is the halt.
pub find_and_init_alloc : List MemmapEntry → ℕ → Option PreAlloc
find_and_init_alloc es hhdm_offset =
    let (largest_addr, largest_size) = largest es in
    if largest_size == 0
    then none
    else some (
        init_alloc (record { physical = largest_addr; virtual = u64 (largest_addr + hhdm_offset) })
          largest_size)

abbrev pub memmap_prekernel_reserved : ℕ
memmap_prekernel_reserved = 9

-- `alloc_pos_aligned`
abbrev pub page_end : ℕ → ℕ
page_end physical = bit_and (u64 (physical + 0xfff)) (not64 0xfff)

-- The loop of `pkmain` that copies the boot loader's map to `out`, from index `i` on: the entry in
-- which the allocator lies becomes the part that it used and the rest.
pub rewrite_map :
    (start aligned size : ℕ) → List MemmapEntry → ℕ → ℕ → List MemmapEntry → List MemmapEntry
rewrite_map start aligned size [] i extra_inserted out = out
rewrite_map start aligned size (e ∷ es) i extra_inserted out =
    let here = e.base == start in
    let reserved : MemmapEntry = record {
      base = e.base;
      length = size;
      type = memmap_prekernel_reserved;
    } in
    let rest : MemmapEntry = record {
      base = aligned;
      length = sub64 e.length size;
      type = memmap_usable;
    } in
    rewrite_map start aligned size es (suc i) (if here then 1 else extra_inserted)
      (if here then set (set out i reserved) (suc i) rest else set out (i + extra_inserted) e)

-- The map of `pkmain`, written over the fresh block `out` of one entry more.
pub pkmain_map : PreAlloc → List MemmapEntry → List MemmapEntry → List MemmapEntry
pkmain_map a es out =
    let alloc_pos_aligned = page_end a.pos.physical in
    rewrite_map a.area_start.physical alloc_pos_aligned
      (sub64 alloc_pos_aligned a.area_start.physical) es 0 0 out

-- What `call_kmain` sets aside for the kernel's own image
abbrev pub kernel_block : ℕ
kernel_block = 0x100_0000

-- The loop of `call_kmain` that enlarges the first reserved entry. `none`: it is the last entry, and
-- the loop writes behind the map.
pub reserve_kernel : List MemmapEntry → Option (List MemmapEntry)
reserve_kernel [] = some []
reserve_kernel (e ∷ []) = if e.type == memmap_prekernel_reserved then none else some (e ∷ [])
reserve_kernel (e ∷ next ∷ es) =
    let later = reserve_kernel (next ∷ es) in
    if e.type == memmap_prekernel_reserved
    then some (
        record e { length = u64 (e.length + kernel_block) }
        ∷ record next {
          base = u64 (next.base + kernel_block);
          length = sub64 next.length kernel_block;
        }
        ∷ es)
    else Option.map (λ rest. e ∷ rest) later
