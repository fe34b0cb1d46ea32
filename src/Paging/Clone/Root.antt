-- ===== src/Paging/Clone/Root.antt =====
-- The clone of all page tables.
use xinix.Base.{
  ℕ, ◌+◌, ◌-◌, ◌*◌, ◌/◌, ◌%◌, ◌^◌, ◌≤◌, ◌<◌, ◌≡◌, refl, ap, ap₂, ◌∙◌, arith, inl, inr, some,
  bit_and, bit_or, u64, sub64, not64,
}
use xinix.Base.Bits.{bit_and_low, bit_and_clear, bit_or_fields}
use xinix.Heap.{Heap, aligned_alloc}
use xinix.Heap.Alloc.{IsBounded, round_up, round_up_bounds, aligned_alloc_lem}
use xinix.Paging.{Store}
use xinix.Paging.Clone.{clone_page_table_level, clone_page_table}
use xinix.Paging.Clone.Walk.{walk, IsBelow, tables}
use xinix.Paging.Clone.Same.{IsDirect, Holds}
use xinix.Paging.Clone.Loop.{clone_page_table_level_lem}

-- The table that a cr3 points to, in the direct map
abbrev pub root_table : ℕ → ℕ → ℕ
root_table hhdm_off cr3 = u64 (bit_and cr3 (not64 0xfff) + hhdm_off)

cr3_lem :
    (hhdm_off t cr3 : ℕ)
    → hhdm_off ≤ t
    → (t - hhdm_off) % 2 ^ 12 ≡ 0
    → t < 2 ^ 64
    → root_table hhdm_off (bit_or (bit_and (sub64 t hhdm_off) (not64 0xfff)) (bit_and cr3 0xfff))
      ≡ t
cr3_lem hhdm_off t cr3 mapped page word =
    let q = (t - hhdm_off) / 2 ^ 12 in
    let physical : sub64 t hhdm_off ≡ t - hhdm_off = omega (arith, mapped, word) in
    let high : bit_and (sub64 t hhdm_off) (not64 0xfff) ≡ q * 2 ^ 12 =
      ap (λ (k : ℕ). bit_and k (not64 0xfff)) physical
      ∙ bit_and_clear 12 52 (t - hhdm_off) (omega (arith, word)) in
    let joined : bit_or (bit_and (sub64 t hhdm_off) (not64 0xfff)) (bit_and cr3 0xfff)
        ≡ q * 2 ^ 12 + cr3 % 2 ^ 12 =
      ap₂ bit_or high (bit_and_low 12 cr3) ∙ bit_or_fields 12 q (cr3 % 2 ^ 12) (omega arith) in
    ap (λ (k : ℕ). u64 (bit_and k (not64 0xfff) + hhdm_off)) joined
    ∙ ap (λ (k : ℕ). u64 (k + hhdm_off))
        (bit_and_clear 12 52 (q * 2 ^ 12 + cr3 % 2 ^ 12) (omega (arith, word)))
    ∙ omega (arith, mapped, page, word)

root_step :
    (hhdm_off cr3 t : ℕ) (heap : Heap) (s after : Store)
    → aligned_alloc s.heap 0x1000 4096 ≡ (some t, heap)
    → clone_page_table_level hhdm_off 4 (root_table hhdm_off cr3) t (record s { heap = heap })
      ≡ some after
    → clone_page_table hhdm_off cr3 s
      ≡ some (t, bit_or (bit_and (sub64 t hhdm_off) (not64 0xfff)) (bit_and cr3 0xfff), after)
unfolding clone_page_table
root_step hhdm_off cr3 t heap s after given runs = rw (clone_page_table, given, given, runs) refl

module _ (hhdm_off limit : ℕ) (s : Store) (direct : IsDirect hhdm_off s.heap.ptr limit s.entry_at)
    (bounded : IsBounded s.heap) (ends : s.heap.limit ≡ limit) where
  -- The new root, at the next page
  abbrev pub new_root : ℕ
  new_root = round_up s.heap.ptr 12

  abbrev started : Store
  started = record s { heap = record s.heap { ptr = new_root + 4096 } }

  started-Holds : new_root + 4096 ≤ limit → Holds hhdm_off s.heap.ptr limit s.entry_at started
  started-Holds room =
      let (above, near, page) = round_up_bounds s.heap.ptr 12 in
      record {
        same = λ a low. refl;
        above = omega (arith, above);
        page = omega (arith, page);
        limit_at = ends;
        bounded = record {
          ptr_in = omega (arith, room, ends, bounded.limit_in);
          limit_in = bounded.limit_in;
        };
      }

  -- What a copy from level `level` on comes to
  abbrev pub Clones : ℕ → ℕ → Store → Type 0
  Clones level orig after =
      ((va : ℕ)
        → walk hhdm_off level after.entry_at new_root va ≡ walk hhdm_off level s.entry_at orig va)
      × ((a : ℕ) → a < s.heap.ptr → after.entry_at a ≡ s.entry_at a)

  levels_lem :
      (level orig : ℕ)
      → IsBelow hhdm_off s.heap.ptr level s.entry_at orig
      → new_root + 4096 + 4096 * tables hhdm_off level s.entry_at orig ≤ limit
      → (after : Store) × (clone_page_table_level hhdm_off level orig new_root started ≡ some after)
        × Clones level orig after
  levels_lem level orig old room =
      let (above, near, page) = round_up_bounds s.heap.ptr 12 in
      let (after, runs, c) =
        clone_page_table_level_lem hhdm_off s.heap.ptr limit s.entry_at direct level level orig
          new_root started old (started-Holds (omega (arith, room))) above (omega arith) room in
      (
        after,
        runs,
        (
          λ va. c.walks after.entry_at va (omega arith) (λ a lo hi. refl) (λ a lo hi. refl),
          λ a low. c.frame a (omega (arith, above, low)) (inl (omega (arith, above, low))),
        ),
      )

  page_fits : (count : ℕ) → new_root + 4096 + 4096 * count ≤ limit → new_root + 4096 ≤ limit
  page_fits count room = omega (arith, room)

  root_alloc :
      new_root + 4096 ≤ limit
      → aligned_alloc s.heap 0x1000 4096 ≡ (some new_root, record s.heap { ptr = new_root + 4096 })
  root_alloc fits = elim (aligned_alloc_lem s.heap 12 4096 bounded (omega arith) (omega arith)) [
    | inl (room, given) ↦ given
    | inr (more, fails) ↦ absurd (omega (arith, more, fits, ends))
  ]

  -- The new root is a page of the direct map.
  root_word :
      new_root + 4096 ≤ limit
      → (hhdm_off ≤ new_root) × ((new_root - hhdm_off) % 2 ^ 12 ≡ 0) × (new_root < 2 ^ 64)
  root_word fits =
      let (above, near, page) = round_up_bounds s.heap.ptr 12 in
      (
        omega (arith, above, direct.mapped),
        omega (arith, above, direct.mapped, page, direct.pages),
        omega (arith, fits, ends, bounded.limit_in),
      )

  -- Where the heap lies in the first 2^52 bytes of the direct map, the offset of which is the address
  -- of a page, entries are 64-bit words, the tables that the processor uses lie below the heap's
  -- pointer, and the heap has a page for each of them: `clone_page_table` ends, leaves everything below that pointer as it was, and its new
  -- cr3 points to a table that leads every address to the entry, and over the flags, that the old one
  -- did.
  pub clone_page_table_lem :
      (cr3 : ℕ)
      → IsBelow hhdm_off s.heap.ptr 4 s.entry_at (root_table hhdm_off cr3)
      → new_root + 4096 + 4096 * tables hhdm_off 4 s.entry_at (root_table hhdm_off cr3) ≤ limit
      → (new_cr3 : ℕ) × (after : Store) × (clone_page_table hhdm_off cr3 s
          ≡ some (new_root, new_cr3, after))
        × (root_table hhdm_off new_cr3 ≡ new_root)
        × Clones 4 (root_table hhdm_off cr3) after
  clone_page_table_lem cr3 old room =
      let (after, runs, clones) = levels_lem 4 (root_table hhdm_off cr3) old room in
      let fits = page_fits (tables hhdm_off 4 s.entry_at (root_table hhdm_off cr3)) room in
      let word = root_word fits in
      (
        bit_or (bit_and (sub64 new_root hhdm_off) (not64 0xfff)) (bit_and cr3 0xfff),
        after,
        root_step hhdm_off cr3 new_root (record s.heap { ptr = new_root + 4096 }) s after
            (root_alloc fits) runs,
        cr3_lem hhdm_off new_root cr3 word.0 word.1 word.2,
        clones,
      )
