-- ===== src/Prekernel/Handover.antt =====
-- The memory map from the boot loader to the kernel.
use xinix.Base.{
  ℕ, suc, ◌+◌, ◌*◌, ◌/◌, ◌^◌, ◌≤◌, ◌<◌, ◌≡◌, ◌⊎◌, inl, inr, ap, ◌∙◌, arith, u64, sub64, refl, Bool,
  true, false, not, ◌&&◌, ◌||◌, List, [], ◌∷◌, ◌++◌, length, some, ◌==◌, ltb, leb, bit_and, not64,
}
use xinix.Base.Bits.{bit_and_clear}
use xinix.Heap.{MemmapEntry, memmap_usable}
use xinix.Prekernel.{
  PreAlloc, pkmain_map, page_end, reserve_kernel, kernel_block, memmap_prekernel_reserved,
}
use xinix.Prekernel.Rewrite.{
  NoneAt, NoneReserved, reserved_part, usable_part, rewrite_map_lem, reserve_kernel_lem,
}

-- Whether the map promises an address to the kernel
abbrev pub covers : MemmapEntry → ℕ → Bool
covers e a = e.type == memmap_usable && (leb e.base a && ltb a (e.base + e.length))

pub usable_at : List MemmapEntry → ℕ → Bool
usable_at [] a = false
usable_at (e ∷ es) a = covers e a || usable_at es a

-- No entry reaches into the block from `lo` to `hi`.
unfoldable pub Apart : ℕ → ℕ → List MemmapEntry → Type 0
Apart lo hi [] = Unit
Apart lo hi (e ∷ es) = ((e.base + e.length ≤ lo) ⊎ (hi ≤ e.base)) × Apart lo hi es

usable_at-append :
    (xs ys : List MemmapEntry) (a : ℕ) → usable_at (xs ++ ys) a ≡ (usable_at xs a || usable_at ys a)
unfolding usable_at
usable_at-append [] ys a = refl
usable_at-append (x ∷ xs) ys a = ground (arith, usable_at-append xs ys a)

usable_at-Apart :
    (lo hi : ℕ) (es : List MemmapEntry) (a : ℕ)
    → Apart lo hi es
    → lo ≤ a
    → a < hi
    → usable_at es a ≡ false
unfolding usable_at Apart
usable_at-Apart lo hi [] a apart from to = refl
usable_at-Apart lo hi (e ∷ es) a (inl below, apart) from to =
    ground (arith, usable_at-Apart lo hi es a apart from to)
usable_at-Apart lo hi (e ∷ es) a (inr above, apart) from to =
    ground (arith, usable_at-Apart lo hi es a apart from to)

page_end_lem : (p : ℕ) → p + 0xfff < 2 ^ 64 → page_end p ≡ (p + 0xfff) / 4096 * 4096
page_end_lem p fits =
    ap (λ t. bit_and t (not64 0xfff)) {y = p + 0xfff} (omega arith)
    ∙ bit_and_clear 12 52 (p + 0xfff) fits

-- The boot loader's map `pre ++ e ∷ post` when the allocator `a` lies at the start of the usable entry
-- `e`, which also has the room for the kernel's block.
pub record IsHandover (pre : List MemmapEntry) (e : MemmapEntry) (post : List MemmapEntry)
    (a : PreAlloc) : Type 0 where
  pub starts : a.area_start.physical ≡ e.base
  pub moved : e.base ≤ a.pos.physical
  pub usable : e.type ≡ memmap_usable
  pub words : e.base + e.length < 2 ^ 64
  pub fits : a.pos.physical + 0xfff + kernel_block ≤ e.base + e.length
  pub before_at : NoneAt e.base pre
  pub after_at : NoneAt e.base post
  pub before_unreserved : NoneReserved pre
  pub before_apart : Apart e.base (e.base + e.length) pre
  pub after_apart : Apart e.base (e.base + e.length) post

-- The two parts promise what the entry did, less the allocator's pages and the kernel's block.
covers_parts :
    (e : MemmapEntry) (aligned a : ℕ)
    → e.type ≡ memmap_usable
    → e.base + e.length < 2 ^ 64
    → e.base ≤ aligned
    → aligned + kernel_block ≤ e.base + e.length
    → (covers
          (record e {
            length = u64 (sub64 aligned e.base + kernel_block);
            type = memmap_prekernel_reserved;
          })
          a
        || covers
            (record {
              base = u64 (aligned + kernel_block);
              length = sub64 (sub64 e.length (sub64 aligned e.base)) kernel_block;
              type = memmap_usable;
            })
            a)
      ≡ (covers e a && not (leb e.base a && ltb a (aligned + kernel_block)))
covers_parts e aligned a usable words from fits = ground arith

cut_out :
    (before after whole parts cut : Bool)
    → parts ≡ (whole && not cut)
    → (cut ≡ true → before ≡ false)
    → (cut ≡ true → after ≡ false)
    → (before || (parts || after)) ≡ ((before || (whole || after)) && not cut)
cut_out before after whole parts true e no_before no_after =
    rw (e, no_before refl, no_after refl) (ground arith)
cut_out before after whole parts false e no_before no_after = rw e (ground arith)

promised :
    (pre : List MemmapEntry) (e : MemmapEntry) (post : List MemmapEntry) (aligned a : ℕ)
    → e.type ≡ memmap_usable
    → e.base + e.length < 2 ^ 64
    → e.base ≤ aligned
    → aligned + kernel_block ≤ e.base + e.length
    → Apart e.base (e.base + e.length) pre
    → Apart e.base (e.base + e.length) post
    → usable_at
        (pre
          ++ record e {
            length = u64 (sub64 aligned e.base + kernel_block);
            type = memmap_prekernel_reserved;
          }
            ∷ record {
              base = u64 (aligned + kernel_block);
              length = sub64 (sub64 e.length (sub64 aligned e.base)) kernel_block;
              type = memmap_usable;
            }
            ∷ post)
        a
      ≡ (usable_at (pre ++ e ∷ post) a && not (leb e.base a && ltb a (aligned + kernel_block)))
unfolding usable_at
promised pre e post aligned a usable words above fits apart_pre apart_post =
    rw (usable_at-append, usable_at-append)
      (cut_out (usable_at pre a) (usable_at post a) (covers e a) _
        (leb e.base a && ltb a (aligned + kernel_block))
        (covers_parts e aligned a usable words above fits)
        (λ cut. usable_at-Apart e.base (e.base + e.length) pre a apart_pre (lower cut) (upper cut))
        (λ cut.
          usable_at-Apart e.base (e.base + e.length) post a apart_post (lower cut) (upper cut)))
  where
    lower : (leb e.base a && ltb a (aligned + kernel_block)) ≡ true → e.base ≤ a
    lower cut = ground arith

    upper : (leb e.base a && ltb a (aligned + kernel_block)) ≡ true → a < e.base + e.length
    upper cut = ground arith

-- The map that `pkmain` writes and `call_kmain` amends promises to the kernel exactly the addresses
-- that the boot loader's map called usable, less those from the allocator's start to the end of its
-- last page and the kernel's block behind it.
pub handover_lem :
    (pre : List MemmapEntry) (e : MemmapEntry) (post : List MemmapEntry) (a : PreAlloc)
    (out : List MemmapEntry)
    → IsHandover pre e post a
    → length out ≡ suc (length (pre ++ e ∷ post))
    → (m : List MemmapEntry) × (reserve_kernel (pkmain_map a (pre ++ e ∷ post) out) ≡ some m)
      × ((x : ℕ)
          → usable_at m x ≡ (
              usable_at (pre ++ e ∷ post) x
              && not (leb e.base x && ltb x (page_end a.pos.physical + kernel_block))))
unfolding pkmain_map
handover_lem pre e post a out v len =
    let aligned = page_end a.pos.physical in
    let size = sub64 aligned e.base in
    let written =
      rewrite_map_lem e.base aligned size pre e post [] out 0 refl len v.before_at refl
        v.after_at in
    let amended =
      reserve_kernel_lem pre (reserved_part e.base aligned size e)
        (usable_part e.base aligned size e) post v.before_unreserved refl in
    (
      _,
      rw (v.starts, written) amended,
      λ x.
          promised pre e post aligned x v.usable v.words
            (omega (arith, page_end_lem a.pos.physical (omega (arith, v.fits, v.words)), v.moved))
            (omega (arith, page_end_lem a.pos.physical (omega (arith, v.fits, v.words)), v.fits))
            v.before_apart v.after_apart,
    )

-- When less than the kernel's block is left behind the allocator's pages, `call_kmain` promises every
-- address behind the block to the kernel.
pub reserve_kernel_overrun :
    (pre : List MemmapEntry) (r n : MemmapEntry) (post : List MemmapEntry)
    → NoneReserved pre
    → r.type ≡ memmap_prekernel_reserved
    → n.type ≡ memmap_usable
    → n.length < kernel_block
    → n.base + kernel_block < 2 ^ 64
    → (m : List MemmapEntry) × (reserve_kernel (pre ++ r ∷ n ∷ post) ≡ some m)
      × ((x : ℕ) → n.base + kernel_block ≤ x → x < 2 ^ 64 → usable_at m x ≡ true)
unfolding usable_at
reserve_kernel_overrun pre r n post before reserved usable small words = (
  _,
  reserve_kernel_lem pre r n post before reserved,
  λ x from to. rw (usable_at-append pre _ x) (ground arith),
)
