-- ===== src/Paging/Clone/Steps.antt =====
-- What a turn of the loop adds to a copy of the entries behind it.
use xinix.Base.{
  ℕ, suc, ◌+◌, ◌-◌, ◌*◌, ◌%◌, ◌^◌, ◌≤◌, ◌<◌, ◌≡◌, ◌⊎◌, ap, ap₂, ◌∙◌, arith, inl, inr, true, false,
  List,
}
use native.Mathlib.Decide.{dec_lt}
use xinix.Heap.{Heap}
use xinix.Paging.{Store, write_entry}
use xinix.Paging.Clone.{descends, lower_table, clone_entry}
use xinix.Paging.Clone.Walk.{index}
use xinix.Paging.Clone.Bits.{clone_entry-table, clone_entry-flags, clone_entry-descends}
use xinix.Paging.Clone.Same.{IsDirect, Holds, Copied, shape, shape_leaf, shape_table}

module _ (hhdm_off base limit : ℕ) (m0 : ℕ → ℕ) (direct : IsDirect hhdm_off base limit m0)
    (level : ℕ) (below : (ℕ → ℕ) → ℕ → ℕ → List ℕ) where
  -- The rest of the loop after an entry that is copied as it is
  pub leaf_step :
      (more idx orig new : ℕ) (s after : Store)
      → base ≤ new
      → new + 4096 ≤ s.heap.ptr
      → idx < 512
      → descends level (m0 (orig + 8 * idx)) ≡ false
      → Copied hhdm_off base limit m0
          (shape hhdm_off base limit m0 below level)
          level
          orig
          new
          (idx + 1)
          more
          (write_entry (new + 8 * idx) (m0 (orig + 8 * idx)) s)
          after
      → Copied hhdm_off base limit m0
          (shape hhdm_off base limit m0 below level)
          level
          orig
          new
          idx
          more
          s
          after
  leaf_step more idx orig new s after outside inside small leaf c = record {
    heap_at = c.heap_at;
    frame = λ a old apart. elim apart [
      | inl before ↦ c.frame a old (inl (omega (arith, before))) ∙ ground (arith, before)
      | inr behind ↦ c.frame a old (inr behind) ∙ ground (arith, behind, small)
    ];
    walks = λ m va from agree agree_below. elim (dec_lt idx (index level va)) [
      | yes later ↦ c.walks m va (omega (arith, later)) agree agree_below
      | no here ↦
          let at : index level va ≡ idx = omega (arith, here, from) in
          let e = m0 (orig + 8 * idx) in
          let written : m (new + 8 * idx) ≡ e =
            agree (new + 8 * idx) (omega arith) (omega (arith, small))
            ∙ c.frame (new + 8 * idx) (omega (arith, inside, small)) (inl (omega arith))
            ∙ ground arith in
          shape_leaf hhdm_off base limit m0 below level e m new orig va
            (ap (λ (k : ℕ). m (new + 8 * k)) at ∙ written) (ap (λ (k : ℕ). m0 (orig + 8 * k)) at)
            leaf
    ];
  }

  -- An entry whose table was copied, with the copies of the table and of the entries behind it
  module _ (count : ℕ → ℕ) (more idx orig new : ℕ) (s between after : Store)
      (h : Holds hhdm_off base limit m0 s) (outside : base ≤ new) (inside : new + 4096 ≤ s.heap.ptr)
      (small : idx < 512) (deep : descends level (m0 (orig + 8 * idx)) ≡ true)
      (room : s.heap.ptr + 4096 ≤ limit) where
    abbrev e : ℕ
    e = m0 (orig + 8 * idx)

    -- The new table
    abbrev t : ℕ
    t = s.heap.ptr

    abbrev table : ℕ
    table = lower_table hhdm_off e

    abbrev v : ℕ
    v = clone_entry hhdm_off t e

    abbrev started : Store
    started = write_entry (new + 8 * idx) v (record s { heap = record s.heap { ptr = t + 4096 } })

    module _
        (first : Copied hhdm_off base limit m0 below level table t 0 (count table) started between)
        (c : Copied hhdm_off base limit m0
          (shape hhdm_off base limit m0 below level)
          level
          orig
          new
          (idx + 1)
          more
          between
          after) where
      end : between.heap.ptr ≡ t + 4096 + 4096 * count table
      end = ap (λ (x : Heap). x.ptr) first.heap_at

      table_frame :
          (a : ℕ) → a < t → (a < new + 8 * idx) ⊎ (new + 4096 ≤ a) → after.entry_at a ≡ s.entry_at a
      table_frame a old apart = elim apart [
        | inl before ↦
            c.frame a (omega (arith, end, old)) (inl (omega (arith, before)))
            ∙ first.frame a (omega (arith, old)) (inl (omega (arith, old)))
            ∙ ground (arith, before)
        | inr behind ↦
            c.frame a (omega (arith, end, old)) (inr behind)
            ∙ first.frame a (omega (arith, old)) (inl (omega (arith, old)))
            ∙ ground (arith, behind, small)
      ]

      table_written : after.entry_at (new + 8 * idx) ≡ v
      table_written =
          c.frame (new + 8 * idx) (omega (arith, inside, small, end)) (inl (omega arith))
          ∙ first.frame (new + 8 * idx) (omega (arith, inside, small))
              (inl (omega (arith, inside, small)))
          ∙ ground arith

      -- A memory that agrees with the one after it on the new tables
      module _ (m : ℕ → ℕ)
          (agree : (a : ℕ)
            → t ≤ a
            → a < t + 4096 + 4096 * count table
            → m a ≡ after.entry_at a) where
        table_deeper : (va : ℕ) → below m t va ≡ below m0 table va
        table_deeper va =
            let agree_between : (a : ℕ)
                → t ≤ a
                → a < t + 4096 + 4096 * count table
                → m a ≡ between.entry_at a =
              λ a lo hi.
                agree a lo hi
                ∙ c.frame a (omega (arith, hi, end)) (inr (omega (arith, lo, inside))) in
            first.walks m va (omega arith) (λ a lo hi. agree_between a lo (omega (arith, hi)))
              (λ a lo hi. agree_between a (omega (arith, lo)) hi)

        table_here :
            (va : ℕ)
            → index level va ≡ idx
            → m (new + 8 * idx) ≡ v
            → shape hhdm_off base limit m0 below level m new va
              ≡ shape hhdm_off base limit m0 below level m0 orig va
        table_here va at written =
            let word = direct.words (orig + 8 * idx) in
            let mapped : hhdm_off ≤ t = omega (arith, direct.mapped, h.above) in
            let near : t - hhdm_off < 2 ^ 52 = omega (arith, direct.near, room) in
            let page : (t - hhdm_off) % 2 ^ 12 ≡ 0 = omega (arith, direct.pages, h.page, mapped) in
            let low : t < 2 ^ 64 = omega (arith, room, h.bounded.limit_in, h.limit_at) in
            shape_table hhdm_off base limit m0 below level v e m new orig va
              (ap (λ (k : ℕ). m (new + 8 * k)) at ∙ written) (ap (λ (k : ℕ). m0 (orig + 8 * k)) at)
              (clone_entry-descends hhdm_off t e word mapped near page low level ∙ deep) deep
              (clone_entry-flags hhdm_off t e word mapped near page low)
              (ap (λ (k : ℕ). below m k va)
                  (clone_entry-table hhdm_off t e word mapped near page low)
                ∙ table_deeper va)

      -- The rest of the loop after such an entry
      pub table_step :
          Copied hhdm_off base limit m0
            (shape hhdm_off base limit m0 below level)
            level
            orig
            new
            idx
            (suc (count table) + more)
            s
            after
      table_step = record {
        heap_at =
            c.heap_at
            ∙ ap₂ (λ (p l : ℕ). record { ptr = p; limit = l })
                {y = t + 4096 * (suc (count table) + more)} (omega (arith, end))
                (ap (λ (x : Heap). x.limit) first.heap_at);
        frame = table_frame;
        walks = λ m va from agree agree_below. elim (dec_lt idx (index level va)) [
          | yes later ↦
              c.walks m va (omega (arith, later)) agree
                (λ a lo hi. agree_below a (omega (arith, lo, end)) (omega (arith, hi, end)))
          | no here ↦
              table_here m (λ a lo hi. agree_below a lo (omega (arith, hi))) va
                (omega (arith, here, from))
                (agree (new + 8 * idx) (omega arith) (omega (arith, small)) ∙ table_written)
        ];
      }
