-- ===== src/Heap.antt =====
-- The kernel's bump heap, kernel/src/common/memory.c, over the memory map of
-- kernel/include/memmap.h. Addresses and sizes are 64-bit words; a null pointer is `none`.
pub mod Largest
pub mod Alloc
pub mod Calloc
mod Examples
use xinix.Base.{
  ℕ, ◌+◌, ◌-◌, ◌*◌, ◌/◌, ◌%◌, ◌^◌, ◌≤◌, ◌<◌, Bool, ◌&&◌, ◌||◌, not, Option, none, some, List, [],
  ◌∷◌, ◌==◌, ltb, leb, if◌then◌else◌, bit_and, u64, sub64, not64,
}
use xinix.Bytes.{Memory, memset}

-- `memmap_entry`
pub record MemmapEntry : Type 0 where
  pub base : ℕ
  pub length : ℕ
  pub type : ℕ

abbrev pub memmap_usable : ℕ
memmap_usable = 0

-- `bump_heap_ptr` and `bump_heap_limit`
pub record Heap : Type 0 where
  pub ptr : ℕ
  pub limit : ℕ

-- The loop of `init_heap`: the address and the size of the largest usable entry so far.
unfoldable pub largest_from : List MemmapEntry → ℕ → ℕ → ℕ × ℕ
largest_from [] addr size = (addr, size)
largest_from (e ∷ es) addr size =
    let better = e.type == memmap_usable && ltb size e.length in
    largest_from es (if better then e.base else addr) (if better then e.length else size)

unfoldable pub largest : List MemmapEntry → ℕ × ℕ
largest es = largest_from es 0 0

-- `none` is the endless halt when no memory is usable.
pub init_heap : List MemmapEntry → ℕ → Option Heap
init_heap es hhdm_offset =
    let (addr, size) = largest es in
    if size == 0
    then none
    else some
        (record { ptr = u64 (addr + hhdm_offset); limit = u64 (u64 (addr + hhdm_offset) + size) })

-- `(p + alignment - 1) & ~(alignment - 1)`
abbrev pub align_up : ℕ → ℕ → ℕ
align_up p alignment = bit_and (sub64 (u64 (p + alignment)) 1) (not64 (sub64 alignment 1))

-- The second half of `aligned_alloc`, from the aligned pointer on. That pointer stays even when the
-- request fails.
pub take_from : Heap → ℕ → ℕ → Option ℕ × Heap
take_from h p size =
    if ltb h.limit p || ltb (sub64 h.limit p) size
    then (none, record h { ptr = p })
    else (some p, record h { ptr = u64 (p + size) })

pub aligned_alloc : Heap → ℕ → ℕ → Option ℕ × Heap
aligned_alloc h alignment size = take_from h (align_up h.ptr alignment) size

-- `alignof(max_align_t)` of the x86-64 ABI
abbrev pub max_align : ℕ
max_align = 16

unfoldable pub malloc : Heap → ℕ → Option ℕ × Heap
malloc h size = aligned_alloc h max_align size

-- `memset(ptr, 0, size)` behind an allocation that gave a block.
abbrev zeroed : Memory → ℕ → Option ℕ × Heap → Option ℕ × Heap × Memory
zeroed m size (none, h) = (none, h, m)
zeroed m size (some p, h) = (some p, h, memset p 0 size m)

pub calloc : Heap → Memory → ℕ → ℕ → Option ℕ × Heap × Memory
calloc h m num size =
    if not (num == 0) && (not (size == 0) && leb size ((2 ^ 64 - 1) / num))
    then zeroed m (u64 (num * size)) (malloc h (u64 (num * size)))
    else (none, h, m)

-- `free` gives nothing back.
pub free : Heap → ℕ → Heap
free h p = h

-- `aligned_zalloc` of kernel/include/memory.h
pub aligned_zalloc : Heap → Memory → ℕ → ℕ → Option ℕ × Heap × Memory
aligned_zalloc h m alignment size = zeroed m size (aligned_alloc h alignment size)
