-- ===== src/Paging/Clone/Loop.antt =====
-- The copy leads every address to what the original leads it to.
use xinix.Base.{
  ℕ, zero, suc, ◌+◌, ◌*◌, ◌≤◌, ◌<◌, ◌≡◌, refl, ap, sym, ◌∙◌, arith, inl, inr, true, false,
  Bool-cases, Option, some, List, [], bit_and, ◌==◌,
}
use mathlib.Core.Path.{subst}
use xinix.Heap.{Heap, aligned_alloc}
use xinix.Paging.{Store, write_entry}
use xinix.Paging.Clone.{descends, lower_table, clone_entry, clone_entries, clone_page_table_level}
use xinix.Paging.Clone.Walk.{index, walk, IsBelow, tables_from, tables}
use xinix.Paging.Clone.Steps.{leaf_step, table_step}
use xinix.Paging.Clone.Same.{index_lt, IsDirect, Holds, Copied, alloc_page, write-Holds, shape}

module _ (hhdm_off base limit : ℕ) (m0 : ℕ → ℕ) (direct : IsDirect hhdm_off base limit m0) where
  -- A step that copies a table with what hangs below it
  abbrev Copies :
      ((ℕ → ℕ) → ℕ → ℕ → List ℕ)
      → ℕ
      → (ℕ → Type 0)
      → (ℕ → ℕ)
      → (ℕ → ℕ → Store → Option Store)
      → Type 0
  Copies reads level Low count step =
      (orig new : ℕ) (s : Store)
      → Low orig
      → Holds hhdm_off base limit m0 s
      → base ≤ new
      → new + 4096 ≤ s.heap.ptr
      → s.heap.ptr + 4096 * count orig ≤ limit
      → (after : Store) × (step orig new s ≡ some after)
        × Copied hhdm_off base limit m0 reads level orig new 0 (count orig) s after

  after-Holds :
      (reads : (ℕ → ℕ) → ℕ → ℕ → List ℕ) (level orig new idx count : ℕ) (s after : Store)
      → Holds hhdm_off base limit m0 s
      → base ≤ new
      → s.heap.ptr + 4096 * count ≤ limit
      → Copied hhdm_off base limit m0 reads level orig new idx count s after
      → Holds hhdm_off base limit m0 after
  after-Holds reads level orig new idx count s after h outside room c =
      let end : after.heap.ptr ≡ s.heap.ptr + 4096 * count = ap (λ (x : Heap). x.ptr) c.heap_at in
      let limit_at : after.heap.limit ≡ s.heap.limit = ap (λ (x : Heap). x.limit) c.heap_at in
      record {
        same = λ a low.
            c.frame a (omega (arith, h.above, low)) (inl (omega (arith, low, outside)))
            ∙ h.same a low;
        above = omega (arith, end, h.above);
        page = omega (arith, end, h.page);
        limit_at = limit_at ∙ h.limit_at;
        bounded = record {
          ptr_in = omega (arith, end, room, h.bounded.limit_in, h.limit_at);
          limit_in = omega (arith, limit_at, h.bounded.limit_in);
        };
      }

  write_page :
      (a v : ℕ) (s : Store)
      → Holds hhdm_off base limit m0 s
      → base ≤ a
      → Holds hhdm_off base limit m0 (write_entry a v s)
  write_page a v s h outside = record {
    same = λ x low. ground (arith, h.same x low);
    above = h.above;
    page = h.page;
    limit_at = h.limit_at;
    bounded = h.bounded;
  }

  -- The loop, for a level whose tables below are copied by `lower`
  module _ (level : ℕ) (below : (ℕ → ℕ) → ℕ → ℕ → List ℕ) (Low : ℕ → Type 0) (count : ℕ → ℕ)
      (lower : ℕ → ℕ → Store → Option Store)
      (copies : (k : ℕ) → Copies below k Low count lower) where
    -- One turn of the loop over an entry that leads to a table
    clone_step :
        (more idx orig new e t : ℕ) (heap : Heap) (s between : Store)
        → s.entry_at (orig + 8 * idx) ≡ e
        → descends level e ≡ true
        → aligned_alloc s.heap 0x1000 4096 ≡ (some t, heap)
        → lower
            (lower_table hhdm_off e)
            t
            (write_entry (new + 8 * idx) (clone_entry hhdm_off t e) (record s { heap = heap }))
          ≡ some between
        → clone_entries hhdm_off level lower (suc more) idx orig new s
          ≡ clone_entries hhdm_off level lower more (idx + 1) orig new between
    unfolding clone_entries
    clone_step more idx orig new e t heap s between read deep given lowered =
        rw (clone_entries, given, read, deep, given, lowered) refl

    -- One turn over any other entry
    copy_step :
        (more idx orig new e : ℕ) (s : Store)
        → s.entry_at (orig + 8 * idx) ≡ e
        → descends level e ≡ false
        → clone_entries hhdm_off level lower (suc more) idx orig new s
          ≡ clone_entries hhdm_off level lower more
              (idx + 1)
              orig
              new
              (write_entry (new + 8 * idx) e s)
    unfolding clone_entries
    copy_step more idx orig new e s read leaf = rw (clone_entries, read, leaf) refl

    entries_lem :
        (more idx orig new : ℕ) (s : Store)
        → idx + more ≡ 512
        → orig + 4096 ≤ base
        → ((i : ℕ)
            → i < 512
            → descends level (m0 (orig + 8 * i)) ≡ true
            → Low (lower_table hhdm_off (m0 (orig + 8 * i))))
        → Holds hhdm_off base limit m0 s
        → base ≤ new
        → new + 4096 ≤ s.heap.ptr
        → s.heap.ptr + 4096 * tables_from hhdm_off level count m0 more idx orig ≤ limit
        → (after : Store) × (clone_entries hhdm_off level lower more idx orig new s ≡ some after)
          × Copied hhdm_off base limit m0
              (shape hhdm_off base limit m0 below level)
              level
              orig
              new
              idx
              (tables_from hhdm_off level count m0 more idx orig)
              s
              after
    unfolding clone_entries
    entries_lem zero idx orig new s whole old lows h outside inside room = (
      s,
      refl,
      record {
        heap_at = ap (λ (p : ℕ). record { ptr = p; limit = s.heap.limit }) (omega arith);
        frame = λ a below_ptr apart. refl;
        walks =
            λ m va from agree agree_below. absurd (omega (arith, from, index_lt level va, whole));
      },
    )
    entries_lem (suc more) idx orig new s whole old lows h outside inside room =
        let e = m0 (orig + 8 * idx) in
        let rest = tables_from hhdm_off level count m0 more (idx + 1) orig in
        let small : idx < 512 = omega (arith, whole) in
        let read : s.entry_at (orig + 8 * idx) ≡ e =
          h.same (orig + 8 * idx) (omega (arith, old, small)) in
        elim (Bool-cases (descends level e)) [
          | inr leaf ↦
              let next = write_entry (new + 8 * idx) e s in
              let held : Holds hhdm_off base limit m0 next =
                write_page (new + 8 * idx) e s h (omega (arith, outside)) in
              let none_below = rw leaf at room in
              let fits : s.heap.ptr + 4096 * rest ≤ limit = omega (arith, none_below) in
              let (after, runs, c) =
                entries_lem more (idx + 1) orig new next (omega (arith, whole)) old lows held
                  outside inside fits in
              (
                after,
                copy_step more idx orig new e s read leaf ∙ runs,
                subst
                    (λ k.
                      Copied hhdm_off base limit m0 (shape hhdm_off base limit m0 below level) level
                        orig new idx k s after)
                    {x = rest} (rw leaf (omega arith))
                    (leaf_step hhdm_off base limit m0 direct level below rest idx orig new s after
                      outside inside small leaf c),
              )
          | inl deep ↦
              let t = s.heap.ptr in
              let table = lower_table hhdm_off e in
              let heap : Heap = record s.heap { ptr = t + 4096 } in
              let next =
                write_entry (new + 8 * idx) (clone_entry hhdm_off t e) (record s { heap = heap }) in
              let fits : s.heap.ptr + 4096 * (suc (count table) + rest) ≤ limit = rw deep at room in
              let page_fits : t + 4096 ≤ limit = omega (arith, fits) in
              let held : Holds hhdm_off base limit m0 next =
                write-Holds hhdm_off base limit m0 s heap (new + 8 * idx) (clone_entry hhdm_off t e)
                  h (omega (arith, outside)) (omega arith) (omega (arith, h.page)) h.limit_at
                  page_fits in
              let (between, lowered, first) =
                copies level table t next (lows idx small deep) held h.above (omega arith)
                  (omega (arith, fits)) in
              let end : between.heap.ptr ≡ t + 4096 + 4096 * count table =
                ap (λ (x : Heap). x.ptr) first.heap_at in
              let held_between =
                after-Holds below level table t 0 (count table) next between held h.above
                  (omega (arith, fits)) first in
              let (after, runs, c) =
                entries_lem more (idx + 1) orig new between (omega (arith, whole)) old lows
                  held_between outside (omega (arith, inside, end)) (omega (arith, fits, end)) in
              (
                after,
                clone_step more idx orig new e t heap s between read deep
                      (alloc_page hhdm_off base limit m0 s h page_fits) lowered
                    ∙ runs,
                subst
                    (λ k.
                      Copied hhdm_off base limit m0 (shape hhdm_off base limit m0 below level) level
                        orig new idx k s after)
                    {x = suc (count table) + rest} (rw deep refl)
                    (table_step hhdm_off base limit m0 direct level below count rest idx orig new s
                      between after h outside inside small deep page_fits first c),
              )
        ]

  -- Tables below may be copied by their own walk, whatever it is called
  relevel :
      (reads reads' : (ℕ → ℕ) → ℕ → ℕ → List ℕ) (level k orig new count : ℕ) (s after : Store)
      → ((m : ℕ → ℕ) (t va : ℕ) → reads m t va ≡ reads' m t va)
      → Copied hhdm_off base limit m0 reads level orig new 0 count s after
      → Copied hhdm_off base limit m0 reads' k orig new 0 count s after
  relevel reads reads' level k orig new count s after same c = record {
    heap_at = c.heap_at;
    frame = c.frame;
    walks = λ m va from agree agree_below.
        sym (same m new va) ∙ c.walks m va (omega arith) agree agree_below ∙ same m0 orig va;
  }

  no_level : (e : ℕ) → descends 0 e ≡ false
  no_level e = elim (Bool-cases (bit_and e 1 == 0)) [
    | inl absent ↦ rw absent refl
    | inr present ↦ rw present refl
  ]

  true_not_false : true ≡ false → ⊥
  true_not_false e = cc

  abbrev no_walk : (ℕ → ℕ) → ℕ → ℕ → List ℕ
  no_walk m t va = []

  -- Each level copies its table with all that hang below it.
  pub clone_page_table_level_lem :
      (level k : ℕ)
      → Copies
          (walk hhdm_off level)
          k
          (IsBelow hhdm_off base level m0)
          (tables hhdm_off level m0)
          (clone_page_table_level hhdm_off level)
  unfolding clone_page_table_level tables
  clone_page_table_level_lem zero k orig new s old h outside inside room =
      let (after, runs, c) =
        entries_lem 0 no_walk (λ t. ⊥) (λ t. 0) (λ orig new t. some t)
          (λ k orig new s impossible. absurd impossible) 512 0 orig new s refl old
          (λ i small deep. absurd (true_not_false (sym deep ∙ no_level (m0 (orig + 8 * i))))) h
          outside inside room in
      (
        after,
        runs,
        relevel (shape hhdm_off base limit m0 no_walk 0) (walk hhdm_off 0) 0 k orig new
            (tables hhdm_off 0 m0 orig) s after
            (λ m t va. rw (no_level (m (t + 8 * index 0 va))) refl) c,
      )
  clone_page_table_level_lem (suc level) k orig new s old h outside inside room =
      let (after, runs, c) =
        entries_lem (suc level) (walk hhdm_off level) (IsBelow hhdm_off base level m0)
          (tables hhdm_off level m0) (clone_page_table_level hhdm_off level)
          (clone_page_table_level_lem level) 512 0 orig new s refl old.0 old.1 h outside inside
          room in
      (
        after,
        runs,
        relevel (walk hhdm_off (suc level)) (walk hhdm_off (suc level)) (suc level) k orig new
            (tables hhdm_off (suc level) m0 orig) s after (λ m t va. refl) c,
      )
