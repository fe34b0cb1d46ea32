-- ===== src/Paging/Clone/Same.antt =====
-- The state between two steps of the copy, and what a step has to keep.
use xinix.Base.{
  ℕ, ◌+◌, ◌*◌, ◌/◌, ◌%◌, ◌^◌, ◌≤◌, ◌<◌, ◌≡◌, ◌⊎◌, refl, ap, ◌∙◌, arith, inl, inr, true, false, some,
  List, [], ◌∷◌, if◌then◌else◌, bit_and,
}
use xinix.Base.Bits.{bit_and_low}
use xinix.Heap.{Heap, aligned_alloc}
use xinix.Heap.Alloc.{IsBounded, round_up, aligned_alloc_lem}
use xinix.Paging.{Store, write_entry}
use xinix.Paging.Clone.{flag_mask, descends, lower_table}
use xinix.Paging.Clone.Walk.{index}

pub index_lt : (level va : ℕ) → index level va < 512
index_lt level va = omega (arith, bit_and_low 9 (va / 2 ^ (level * 9 + 3)))

-- The direct map: of whole pages, around everything from `base` to the heap's limit. `m0` holds the
-- tables at the start, below `base`.
pub record IsDirect (hhdm_off base limit : ℕ) (m0 : ℕ → ℕ) : Type 0 where
  pub pages : hhdm_off % 4096 ≡ 0
  pub mapped : hhdm_off ≤ base
  pub near : limit ≤ hhdm_off + 2 ^ 52
  pub words : (a : ℕ) → m0 a < 2 ^ 64

module _ (hhdm_off base limit : ℕ) (m0 : ℕ → ℕ) where
  -- Between two steps: nothing below `base` has changed, and the heap gives out whole pages.
  pub record Holds (s : Store) : Type 0 where
    pub same : (a : ℕ) → a < base → s.entry_at a ≡ m0 a
    pub above : base ≤ s.heap.ptr
    pub page : s.heap.ptr % 4096 ≡ 0
    pub limit_at : s.heap.limit ≡ limit
    pub bounded : IsBounded s.heap

  -- A table was copied from the entry `idx` on, with `count` tables below: the heap gave out as many
  -- pages, nothing else changed, and any memory that has the copy leads to what the original does.
  pub record Copied (reads : (ℕ → ℕ) → ℕ → ℕ → List ℕ) (level orig new idx count : ℕ)
      (s after : Store) : Type 0 where
    pub heap_at : after.heap ≡ record s.heap { ptr = s.heap.ptr + 4096 * count }
    pub frame :
        (a : ℕ)
        → a < s.heap.ptr
        → (a < new + 8 * idx) ⊎ (new + 4096 ≤ a)
        → after.entry_at a ≡ s.entry_at a
    pub walks :
        (m : ℕ → ℕ) (va : ℕ)
        → idx ≤ index level va
        → ((a : ℕ) → new ≤ a → a < new + 4096 → m a ≡ after.entry_at a)
        → ((a : ℕ) → s.heap.ptr ≤ a → a < s.heap.ptr + 4096 * count → m a ≡ after.entry_at a)
        → reads m new va ≡ reads m0 orig va

  pub alloc_page :
      (s : Store)
      → Holds s
      → s.heap.ptr + 4096 ≤ limit
      → aligned_alloc s.heap 0x1000 4096
        ≡ (some s.heap.ptr, record s.heap { ptr = s.heap.ptr + 4096 })
  alloc_page s h room =
      let whole : round_up s.heap.ptr 12 ≡ s.heap.ptr = omega (arith, h.page) in
      elim (aligned_alloc_lem s.heap 12 4096 h.bounded (omega arith) (omega arith)) [
        | inl (fits, given) ↦
            given ∙ ap (λ (p : ℕ). (some p, record s.heap { ptr = p + 4096 })) whole
        | inr (more, fails) ↦ absurd (omega (arith, more, room, whole, h.limit_at))
      ]

  pub write-Holds :
      (s : Store) (heap : Heap) (a v : ℕ)
      → Holds s
      → base ≤ a
      → s.heap.ptr ≤ heap.ptr
      → heap.ptr % 4096 ≡ 0
      → heap.limit ≡ limit
      → heap.ptr ≤ limit
      → Holds (write_entry a v (record s { heap = heap }))
  write-Holds s heap a v h outside more page limit_at below = record {
    same = λ x low. ground (arith, h.same x low);
    above = omega (arith, h.above);
    page = page;
    limit_at = limit_at;
    bounded = record {
      ptr_in = omega (arith, below, h.bounded.limit_in, h.limit_at);
      limit_in = omega (arith, limit_at, h.bounded.limit_in, h.limit_at);
    };
  }

  -- A level of the walk, over the walk of the level below
  abbrev pub shape : ((ℕ → ℕ) → ℕ → ℕ → List ℕ) → ℕ → (ℕ → ℕ) → ℕ → ℕ → List ℕ
  shape below level m table va =
      let entry = m (table + 8 * index level va) in
      if descends level entry
      then bit_and entry flag_mask ∷ below m (lower_table hhdm_off entry) va
      else entry ∷ []

  -- The two ways an entry of the copy stands for one of the original
  pub shape_leaf :
      (below : (ℕ → ℕ) → ℕ → ℕ → List ℕ) (level e : ℕ) (m : ℕ → ℕ) (new orig va : ℕ)
      → m (new + 8 * index level va) ≡ e
      → m0 (orig + 8 * index level va) ≡ e
      → descends level e ≡ false
      → shape below level m new va ≡ shape below level m0 orig va
  shape_leaf below level e m new orig va here there leaf = rw (here, there, leaf) refl

  pub shape_table :
      (below : (ℕ → ℕ) → ℕ → ℕ → List ℕ) (level v e : ℕ) (m : ℕ → ℕ) (new orig va : ℕ)
      → m (new + 8 * index level va) ≡ v
      → m0 (orig + 8 * index level va) ≡ e
      → descends level v ≡ true
      → descends level e ≡ true
      → bit_and v flag_mask ≡ bit_and e flag_mask
      → below m (lower_table hhdm_off v) va ≡ below m0 (lower_table hhdm_off e) va
      → shape below level m new va ≡ shape below level m0 orig va
  shape_table below level v e m new orig va here there copy table flags deeper =
      rw (here, there, copy, table, flags, deeper) refl
