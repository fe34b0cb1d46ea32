-- ===== src/Prekernel/Allocator.antt =====
-- The prekernel's allocator: alignment, order of the blocks, and its two addresses.
use xinix.Base.{ℕ, ◌+◌, ◌-◌, ◌%◌, ◌^◌, ◌≤◌, ◌<◌, ◌≡◌, arith}
use xinix.Heap.Alloc.{round_up, round_up_bounds, align_up_lem}
use xinix.Prekernel.{PreAlloc, prekernel_aligned_alloc}

-- The allocator after `grown` bytes: both addresses have moved on by these.
abbrev pub advance : PreAlloc → ℕ → PreAlloc
advance a grown = record a {
  pos = record { physical = a.pos.physical + grown; virtual = a.pos.virtual + grown };
}

-- An allocation gives the position rounded up to the alignment, which lies less than the alignment
-- away, and moves the virtual and the physical position alike, to the end of the block.
pub prekernel_aligned_alloc_lem :
    (a : PreAlloc) (k size : ℕ)
    → k < 64
    → a.pos.virtual + 2 ^ k + size < 2 ^ 64
    → a.pos.physical + 2 ^ k + size < 2 ^ 64
    → let start = round_up a.pos.virtual k in
      (prekernel_aligned_alloc a (2 ^ k) size ≡ (start, advance a (start + size - a.pos.virtual)))
      × (a.pos.virtual ≤ start)
      × (start < a.pos.virtual + 2 ^ k)
      × (start % 2 ^ k ≡ 0)
unfolding prekernel_aligned_alloc
prekernel_aligned_alloc_lem a k size small fits_v fits_p =
    let start = align_up_lem a.pos.virtual k (64 - k) (omega arith) (omega arith) (omega arith) in
    let (above, below, multiple) = round_up_bounds a.pos.virtual k in
    (rw start (ground arith), above, below, multiple)
