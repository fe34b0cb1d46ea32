-- ===== src/Heap/Largest.antt =====
-- `init_heap` takes the largest usable entry of the memory map.
use xinix.Base.{
  ℕ, zero, suc, ◌+◌, ◌≤◌, ◌<◌, ◌≡◌, refl, ◌⊎◌, inl, inr, none, some, List, [], ◌∷◌, get_elem?, u64,
  arith, ◌==◌, ltb, ◌&&◌, Bool-cases,
}
use xinix.Heap.{MemmapEntry, memmap_usable, largest_from, largest, init_heap}

-- Entry `i` of the map is usable, with this base and size.
abbrev pub UsableAt : List MemmapEntry → ℕ → ℕ → ℕ → Type 0
UsableAt es i addr size =
    (e : MemmapEntry) × (get_elem? es i ≡ some e)
    × (e.type ≡ memmap_usable)
    × (e.base ≡ addr)
    × (e.length ≡ size)

-- No usable entry is larger.
abbrev pub Bounds : List MemmapEntry → ℕ → Type 0
Bounds es size =
    (i : ℕ) (e : MemmapEntry) → get_elem? es i ≡ some e → e.type ≡ memmap_usable → e.length ≤ size

grows : (es : List MemmapEntry) (addr size : ℕ) → size ≤ (largest_from es addr size).1
unfolding largest_from
grows [] addr size = omega arith
grows (e ∷ es) addr size = elim (Bool-cases (e.type == memmap_usable && ltb size e.length)) [
  | inl b ↦ rw (b, largest_from) (ground (arith, grows es e.base e.length))
  | inr b ↦ rw (b, largest_from) (grows es addr size)
]

largest_from-Bounds :
    (es : List MemmapEntry) (addr size : ℕ) → Bounds es (largest_from es addr size).1
unfolding largest_from
largest_from-Bounds [] addr size i e at u = ground arith
largest_from-Bounds (x ∷ es) addr size zero e at u =
    elim (Bool-cases (x.type == memmap_usable && ltb size x.length)) [
      | inl b ↦ rw (b, largest_from) (ground (arith, grows es x.base x.length))
      | inr b ↦ rw (b, largest_from) (ground (arith, grows es addr size))
    ]
largest_from-Bounds (x ∷ es) addr size (suc i) e at u =
    elim (Bool-cases (x.type == memmap_usable && ltb size x.length)) [
      | inl b ↦ rw (b, largest_from) (largest_from-Bounds es x.base x.length i e at u)
      | inr b ↦ rw (b, largest_from) (largest_from-Bounds es addr size i e at u)
    ]

largest_from-UsableAt :
    (es : List MemmapEntry) (addr size : ℕ)
    → (((largest_from es addr size).0 ≡ addr) × ((largest_from es addr size).1 ≡ size))
      ⊎ ((i : ℕ) × UsableAt es i (largest_from es addr size).0 (largest_from es addr size).1)
unfolding largest_from
largest_from-UsableAt [] addr size = inl (refl, refl)
largest_from-UsableAt (x ∷ es) addr size =
    elim (Bool-cases (x.type == memmap_usable && ltb size x.length)) [
      | inl b ↦
          rw (b, largest_from)
            (elim (largest_from-UsableAt es x.base x.length) [
              | inl kept ↦ inr (0, (x, refl, ground arith, ground arith, ground arith))
              | inr (i, at) ↦ inr (suc i, at)
            ])
      | inr b ↦
          rw (b, largest_from)
            (elim (largest_from-UsableAt es addr size) [
              | inl kept ↦ inl kept
              | inr (i, at) ↦ inr (suc i, at)
            ])
    ]

-- `init_heap` halts exactly when no usable entry holds memory; otherwise the heap spans, through
-- the direct map, a usable entry that no usable entry exceeds.
pub init_heap_lem :
    (es : List MemmapEntry) (hhdm_offset : ℕ)
    → ((init_heap es hhdm_offset ≡ none) × Bounds es 0)
      ⊎ ((i addr size : ℕ) × UsableAt es i addr size
          × Bounds es size
          × (0 < size)
          × (init_heap es hhdm_offset
              ≡ some (record {
                ptr = u64 (addr + hhdm_offset);
                limit = u64 (u64 (addr + hhdm_offset) + size);
              })))
unfolding init_heap largest
init_heap_lem es hhdm_offset = elim (Bool-cases ((largest es).1 == 0)) [
  | inl empty ↦
      inl (rw (empty, init_heap), λ i e at u. ground (arith, largest_from-Bounds es 0 0 i e at u))
  | inr some_left ↦ elim (largest_from-UsableAt es 0 0) [
    | inl kept ↦ absurd (ground arith)
    | inr (i, at) ↦ inr (
      i,
      (largest es).0,
      (largest es).1,
      at,
      largest_from-Bounds es 0 0,
      ground arith,
      rw (some_left, init_heap),
    )
  ]
]
