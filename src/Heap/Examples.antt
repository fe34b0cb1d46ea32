-- ===== src/Heap/Examples.antt =====
-- The kernel heap at inputs.
use xinix.Base.{
  ℕ, ◌+◌, ◌^◌, ◌≤◌, ◌<◌, ◌≡◌, ◌⊎◌, refl, none, some, List, [], ◌∷◌, arith, u64, if◌then◌else◌,
}
use xinix.Bytes.{Memory}
use xinix.Bytes.Copy.{inside}
use xinix.Heap.{
  MemmapEntry, Heap, init_heap, aligned_alloc, take_from, calloc, largest, largest_from,
}
use xinix.Heap.Largest.{UsableAt, Bounds, init_heap_lem}
use xinix.Heap.Alloc.{
  round_up, IsBounded, aligned_alloc_lem, Request, alloc_all, Stacked, alloc_all-Stacked,
}
use xinix.Heap.Calloc.{Fits, calloc_lem}

abbrev map3 : List MemmapEntry
map3 =
    record { base = 0x1000; length = 0x9000; type = 0 }
    ∷ record { base = 0x10_0000; length = 0x8000_0000; type = 1 }
    ∷ record { base = 0x1000_0000; length = 0x20_0000; type = 0 }
    ∷ []

abbrev small_heap : Heap
small_heap = record { ptr = 0x1008; limit = 0x1100 }

small_heap-IsBounded : IsBounded small_heap
small_heap-IsBounded = omega arith

init_heap-map3 : init_heap map3 0 ≡ some (record { ptr = 0x1000_0000; limit = 0x1020_0000 })
unfolding init_heap largest largest_from
init_heap-map3 = refl

init_heap_lem_example :
    ((init_heap map3 0 ≡ none) × Bounds map3 0)
    ⊎ ((i addr size : ℕ) × UsableAt map3 i addr size
        × Bounds map3 size
        × (0 < size)
        × (init_heap map3 0
            ≡ some (record { ptr = u64 (addr + 0); limit = u64 (u64 (addr + 0) + size) })))
init_heap_lem_example = init_heap_lem map3 0

aligned_alloc_lem_example :
    ((round_up 0x1008 5 + 40 ≤ 0x1100)
      × (aligned_alloc small_heap (2 ^ 5) 40
          ≡ (some (round_up 0x1008 5), record { ptr = round_up 0x1008 5 + 40; limit = 0x1100 })))
    ⊎ ((0x1100 < round_up 0x1008 5 + 40)
        × (aligned_alloc small_heap (2 ^ 5) 40
            ≡ (none, record { ptr = round_up 0x1008 5; limit = 0x1100 })))
aligned_alloc_lem_example =
    aligned_alloc_lem small_heap 5 40 small_heap-IsBounded (omega arith) (omega arith)

-- Once a block for a large alignment is refused, not even one byte is left.
refused : (aligned_alloc small_heap 4096 1).1 ≡ record { ptr = 0x2000; limit = 0x1100 }
unfolding aligned_alloc take_from
refused = refl

abbrev wants : List Request
wants =
    record { exponent = 4; size = 24 }
    ∷ record { exponent = 6; size = 8 }
    ∷ record { exponent = 3; size = 4000 }
    ∷ []

alloc_all-wants : (alloc_all small_heap wants).0 ≡ some 0x1010 ∷ some 0x1040 ∷ none ∷ []
unfolding alloc_all aligned_alloc take_from
alloc_all-wants = refl

alloc_all-Stacked_example : Stacked 0x1008 0x1100 wants (alloc_all small_heap wants).0
alloc_all-Stacked_example = alloc_all-Stacked small_heap wants small_heap-IsBounded (omega arith)

abbrev ones : Memory
ones a = 1

calloc_lem_example :
    (((◌≡◌ {A = ℕ} 32 0) ⊎ (2 ^ 64 ≤ 32)) × (calloc small_heap ones 4 8 ≡ (none, small_heap, ones)))
    ⊎ ((Fits 4 8
          × (round_up 0x1008 4 + 32 ≤ 0x1100)
          × (m' : Memory) × (calloc small_heap ones 4 8 ≡ (
            some (round_up 0x1008 4),
            record { ptr = round_up 0x1008 4 + 32; limit = 0x1100 },
            m',
          ))
          × ((a : ℕ) → m' a ≡ (if inside (round_up 0x1008 4) 32 a then 0 else ones a)))
        ⊎ (Fits 4 8
            × (0x1100 < round_up 0x1008 4 + 32)
            × (calloc small_heap ones 4 8
                ≡ (none, record { ptr = round_up 0x1008 4; limit = 0x1100 }, ones))))
calloc_lem_example = calloc_lem small_heap ones 4 8 small_heap-IsBounded
