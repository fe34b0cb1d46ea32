-- ===== src/Prekernel/Examples.antt =====
-- The prekernel's memory at inputs.
use xinix.Base.{ℕ, ◌+◌, ◌≡◌, refl, some, List, [], ◌∷◌, ◌++◌, arith, inl, inr, not, ◌&&◌, leb, ltb}
use xinix.Heap.{MemmapEntry, largest, largest_from}
use xinix.Prekernel.{
  PreAlloc, init_alloc, find_and_init_alloc, pkmain_map, page_end, reserve_kernel, kernel_block,
}
use xinix.Prekernel.Rewrite.{NoneAt, NoneReserved}
use xinix.Prekernel.Handover.{usable_at, Apart, IsHandover, handover_lem}

abbrev low_entry : MemmapEntry
low_entry = record { base = 0x1000; length = 0x9000; type = 0 }

abbrev ram : MemmapEntry
ram = record { base = 0x10_0000; length = 0x4000_0000; type = 0 }

abbrev rom : MemmapEntry
rom = record { base = 0xf000_0000; length = 0x1000; type = 1 }

abbrev used : PreAlloc
used = record {
  area_start = record { physical = 0x10_0000; virtual = 0xffff_8000_0010_0000 };
  pos = record { physical = 0x10_0058; virtual = 0xffff_8000_0010_0058 };
}

-- The allocator starts in the largest entry, at both of its addresses.
found :
    find_and_init_alloc (low_entry ∷ ram ∷ rom ∷ []) 0xffff_8000_0000_0000
    ≡ some (record { area_start = used.area_start; pos = used.area_start })
unfolding find_and_init_alloc init_alloc largest largest_from
found = refl

handed : IsHandover (low_entry ∷ []) ram (rom ∷ []) used
unfolding NoneAt NoneReserved Apart
handed = record {
  starts = refl;
  moved = omega arith;
  usable = refl;
  words = omega arith;
  fits = omega arith;
  before_at = (omega arith, tt);
  after_at = (omega arith, tt);
  before_unreserved = (omega arith, tt);
  before_apart = (inl (omega arith), tt);
  after_apart = (inr (omega arith), tt);
}

abbrev fresh : List MemmapEntry
fresh = rom ∷ rom ∷ rom ∷ rom ∷ []

handover_lem_example :
    (m : List MemmapEntry) × (reserve_kernel
        (pkmain_map used ((low_entry ∷ []) ++ ram ∷ rom ∷ []) fresh)
      ≡ some m)
    × ((x : ℕ)
        → usable_at m x ≡ (
            usable_at ((low_entry ∷ []) ++ ram ∷ rom ∷ []) x
            && not (leb 0x10_0000 x && ltb x (page_end 0x10_0058 + kernel_block))))
handover_lem_example = handover_lem (low_entry ∷ []) ram (rom ∷ []) used fresh handed refl

abbrev taken : MemmapEntry
taken = record { base = 0x1000; length = 0x1000; type = 9 }

abbrev scarce : MemmapEntry
scarce = record { base = 0x2000; length = 0x1000; type = 0 }

low_unreserved : NoneReserved (low_entry ∷ [])
unfolding NoneReserved
low_unreserved = (omega arith, tt)
