-- ===== src/Prekernel/Rewrite.antt =====
-- What the two loops over the memory map write.
use xinix.Base.{
  ℕ, suc, zero, ◌+◌, ◌≡◌, ◌≢◌, ap, ◌∙◌, arith, u64, sub64, refl, true, false, List, [], ◌∷◌, ◌++◌,
  length, set, some, ◌==◌,
}
use xinix.Heap.{MemmapEntry, memmap_usable}
use xinix.Prekernel.{rewrite_map, reserve_kernel, kernel_block, memmap_prekernel_reserved}
use mathlib.Core.List.{append_assoc}

-- No entry starts at `start`.
unfoldable pub NoneAt : ℕ → List MemmapEntry → Type 0
NoneAt start [] = Unit
NoneAt start (e ∷ es) = (e.base ≢ start) × NoneAt start es

-- No entry is marked as the prekernel's.
unfoldable pub NoneReserved : List MemmapEntry → Type 0
NoneReserved [] = Unit
NoneReserved (e ∷ es) = (e.type ≢ memmap_prekernel_reserved) × NoneReserved es

set-append :
    (done : List MemmapEntry) (x v : MemmapEntry) (rest : List MemmapEntry) (i : ℕ)
    → i ≡ length done
    → set (done ++ x ∷ rest) i v ≡ (done ++ v ∷ []) ++ rest
set-append [] x v rest zero e = refl
set-append [] x v rest (suc i) e = absurd (omega arith)
set-append (d ∷ done) x v rest zero e = absurd (omega arith)
set-append (d ∷ done) x v rest (suc i) e =
    ap (λ t. d ∷ t) (set-append done x v rest i (omega arith))

length-snoc :
    (done : List MemmapEntry) (v : MemmapEntry) → length (done ++ v ∷ []) ≡ suc (length done)
length-snoc [] v = refl
length-snoc (d ∷ done) v = ap suc (length-snoc done v)

module _ (start aligned size : ℕ) where
  -- Without the allocator's entry the map is copied.
  copied :
      (es done rest : List MemmapEntry) (i extra : ℕ)
      → i + extra ≡ length done
      → length rest ≡ length es
      → NoneAt start es
      → rewrite_map start aligned size es i extra (done ++ rest) ≡ done ++ es
  unfolding rewrite_map NoneAt
  copied [] done [] i extra at len none_at = refl
  copied [] done (x ∷ rest) i extra at len none_at = absurd (omega arith)
  copied (e ∷ es) done [] i extra at len none_at = absurd (omega arith)
  copied (e ∷ es) done (x ∷ rest) i extra at len (other, none_at) =
      let moved : e.base == start ≡ false = ground (arith, other) in
      rw (moved, set-append done x e rest (i + extra) at, rewrite_map)
        (copied es (done ++ e ∷ []) rest (suc i) extra (omega (arith, length-snoc done e))
            (omega arith) none_at
          ∙ append_assoc done (e ∷ []) es)

  abbrev pub reserved_part : MemmapEntry → MemmapEntry
  reserved_part e = record { base = e.base; length = size; type = memmap_prekernel_reserved }

  abbrev pub usable_part : MemmapEntry → MemmapEntry
  usable_part e = record { base = aligned; length = sub64 e.length size; type = memmap_usable }

  -- The allocator's entry is split in two, and every other entry is kept.
  pub rewrite_map_lem :
      (pre : List MemmapEntry) (e : MemmapEntry) (post done rest : List MemmapEntry) (i : ℕ)
      → i ≡ length done
      → length rest ≡ suc (length (pre ++ e ∷ post))
      → NoneAt start pre
      → e.base ≡ start
      → NoneAt start post
      → rewrite_map start aligned size (pre ++ e ∷ post) i 0 (done ++ rest)
        ≡ done ++ (pre ++ reserved_part e ∷ usable_part e ∷ post)
  unfolding rewrite_map NoneAt
  rewrite_map_lem [] e post done (x ∷ y ∷ rest) i at len before here after =
      let found : e.base == start ≡ true = ground (arith, here) in
      let r = reserved_part e in
      let u = usable_part e in
      rw
        (
          found,
          set-append done x r (y ∷ rest) i at,
          set-append (done ++ r ∷ []) y u rest (suc i) (omega (arith, length-snoc done r)),
          rewrite_map,
        )
        (copied post (done ++ r ∷ [] ++ u ∷ []) rest (suc i) 1
            (omega (arith, length-snoc done r, length-snoc (done ++ r ∷ []) u)) (omega arith) after
          ∙ append_assoc (done ++ r ∷ []) (u ∷ []) post
          ∙ append_assoc done (r ∷ []) (u ∷ post))
  rewrite_map_lem [] e post done (x ∷ []) i at len before here after = absurd (omega arith)
  rewrite_map_lem [] e post done [] i at len before here after = absurd (omega arith)
  rewrite_map_lem (p ∷ pre) e post done [] i at len before here after = absurd (omega arith)
  rewrite_map_lem (p ∷ pre) e post done (x ∷ rest) i at len (other, before) here after =
      let moved : p.base == start ≡ false = ground (arith, other) in
      rw (moved, set-append done x p rest (i + 0) (omega arith), rewrite_map)
        (rewrite_map_lem pre e post (done ++ p ∷ []) rest (suc i)
            (omega (arith, length-snoc done p)) (omega arith) before here after
          ∙ append_assoc done (p ∷ []) (pre ++ reserved_part e ∷ usable_part e ∷ post))

-- The first reserved entry grows, at the cost of its neighbour.
pub reserve_kernel_lem :
    (pre : List MemmapEntry) (r n : MemmapEntry) (post : List MemmapEntry)
    → NoneReserved pre
    → r.type ≡ memmap_prekernel_reserved
    → reserve_kernel (pre ++ r ∷ n ∷ post)
      ≡ some (
          pre
          ++ record r { length = u64 (r.length + kernel_block) }
            ∷ record n { base = u64 (n.base + kernel_block); length = sub64 n.length kernel_block }
            ∷ post)
unfolding reserve_kernel NoneReserved
reserve_kernel_lem [] r n post before here = ground (arith, here)
reserve_kernel_lem (p ∷ []) r n post (other, before) here =
    ground (arith, other, reserve_kernel_lem [] r n post before here)
reserve_kernel_lem (p ∷ q ∷ pre) r n post (other, before) here =
    ground (arith, other, reserve_kernel_lem (q ∷ pre) r n post before here)
