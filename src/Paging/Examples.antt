-- ===== src/Paging/Examples.antt =====
-- Page tables at inputs.
use xinix.Base.{
  ◌+◌, ◌*◌, ◌≡◌, arith, true, false, ◌==◌, if◌then◌else◌, ℕ, zero, suc, ◌≤◌, ◌<◌, ◌∙◌, refl, sym,
  some,
}
use xinix.Heap.Alloc.{IsBounded}
use xinix.Paging.Clone.{descends, lower_table, clone_page_table}
use xinix.Paging.Clone.Walk.{IsBelow, tables, tables_from, tables_from-none, tables_from-one}
use xinix.Paging.Clone.Same.{IsDirect}
use xinix.Paging.Clone.Root.{root_table, Clones, clone_page_table_lem}
use xinix.Paging.{Store, Request, add_to_hhdm}
use xinix.Paging.Protect.{Protect, vprotect}
use xinix.Paging.Protect.Loops.{Kept}
use xinix.Paging.Protect.Ends.{vprotect-Kept}
use xinix.Paging.Rounds.{finished, add_to_hhdm-finished}

abbrev no_tables : Store
no_tables = record {
  entry_at = λ x. 0;
  heap = record { ptr = 0xffff_8000_0100_0000; limit = 0xffff_8000_0200_0000 };
}

abbrev device : Request
device = record {
  phys_addr = 0xfee0_0000;
  granularity = 0;
  mem_flags = 3;
  hhdm_off = 0xffff_8000_0000_0000;
}

add_to_hhdm-finished_example : finished (add_to_hhdm device 0xffff_8000_0000_1000 no_tables) ≡ true
add_to_hhdm-finished_example =
    add_to_hhdm-finished device 0xffff_8000_0000_1000 no_tables (omega arith)

-- A root at 0x1000 whose first entry leads to a table at 0x2000 that maps a page of 1 GiB
abbrev two_tables : ℕ → ℕ
two_tables a = if a == 0x1_1000 then 0x2001 else if a == 0x1_2000 then 0x83 else 0

abbrev before_clone : Store
before_clone = record { entry_at = two_tables; heap = record { ptr = 0x2_0000; limit = 0x4_0000 } }

two_tables-IsDirect : IsDirect 0x1_0000 0x2_0000 0x4_0000 two_tables
two_tables-IsDirect = record {
  pages = refl;
  mapped = omega arith;
  near = omega arith;
  words = λ a. ground arith;
}

false_not_true : false ≡ true → ⊥
false_not_true e = cc

no_entry : (level e : ℕ) → e ≡ 0 → descends level e ≡ true → ⊥
no_entry level e none_there deep =
    let absent : descends level e ≡ false = rw none_there refl in false_not_true (sym absent ∙ deep)

second_low :
    (i : ℕ)
    → i < 512
    → descends 3 (two_tables (0x1_2000 + 8 * i)) ≡ true
    → IsBelow 0x1_0000 0x2_0000 2 two_tables (lower_table 0x1_0000 (two_tables (0x1_2000 + 8 * i)))
second_low zero small deep = absurd (false_not_true deep)
second_low (suc i) small deep =
    absurd (no_entry 3 (two_tables (0x1_2000 + 8 * suc i)) (ground arith) deep)

first_low :
    (i : ℕ)
    → i < 512
    → descends 4 (two_tables (0x1_1000 + 8 * i)) ≡ true
    → IsBelow 0x1_0000 0x2_0000 3 two_tables (lower_table 0x1_0000 (two_tables (0x1_1000 + 8 * i)))
first_low zero small deep = (omega arith, second_low)
first_low (suc i) small deep =
    absurd (no_entry 4 (two_tables (0x1_1000 + 8 * suc i)) (ground (arith, small)) deep)

-- Behind its first entry neither table leads on.
first_rest : (i : ℕ) → 1 ≤ i → i < 512 → descends 4 (two_tables (0x1_1000 + 8 * i)) ≡ false
first_rest i from small =
    let absent : two_tables (0x1_1000 + 8 * i) ≡ 0 = ground (arith, from, small) in rw absent refl

second_rest : (i : ℕ) → 0 ≤ i → i < 512 → descends 3 (two_tables (0x1_2000 + 8 * i)) ≡ false
second_rest zero from small = refl
second_rest (suc i) from small =
    let absent : two_tables (0x1_2000 + 8 * suc i) ≡ 0 = ground arith in rw absent refl

below_second : tables 0x1_0000 3 two_tables 0x1_2000 ≡ 0
unfolding tables
below_second =
    tables_from-none 0x1_0000 3 (tables 0x1_0000 2 two_tables) two_tables 512 0 0x1_2000 second_rest

below_first : tables_from 0x1_0000 4 (tables 0x1_0000 3 two_tables) two_tables 511 1 0x1_1000 ≡ 0
below_first =
    tables_from-none 0x1_0000 4 (tables 0x1_0000 3 two_tables) two_tables 511 1 0x1_1000 first_rest

one_below : tables 0x1_0000 4 two_tables 0x1_1000 ≡ 1
unfolding tables
one_below =
    tables_from-one 0x1_0000 4 (tables 0x1_0000 3 two_tables) two_tables 511 0 0x1_1000 refl
      below_second below_first

bounded_heap : IsBounded before_clone.heap
bounded_heap = record { ptr_in = omega arith; limit_in = omega arith }

room_for_clone : 0x2_0000 + 4096 + 4096 * tables 0x1_0000 4 two_tables 0x1_1000 ≤ 0x4_0000
room_for_clone = rw one_below (omega arith)

clone_page_table_lem_example :
    (new_cr3 : ℕ) × (after : Store) × (clone_page_table 0x1_0000 0x1003 before_clone
      ≡ some (0x2_0000, new_cr3, after))
    × (root_table 0x1_0000 new_cr3 ≡ 0x2_0000)
    × Clones 0x1_0000 0x4_0000 before_clone two_tables-IsDirect bounded_heap refl 4 0x1_1000 after
clone_page_table_lem_example =
    clone_page_table_lem 0x1_0000 0x4_0000 before_clone two_tables-IsDirect bounded_heap refl 0x1003
      (omega arith, first_low) room_for_clone

abbrev kernel_text : Protect
kernel_text = record { hhdm_offset = 0x1_0000; cr3 = 0x1003; nx_detected = true; prot_flags = 5 }

vprotect-Kept_example :
    (after : ℕ → ℕ) × (vprotect kernel_text 0xffff_8000_0010_0000 8 two_tables ≡ some after)
    × Kept two_tables after
vprotect-Kept_example = vprotect-Kept kernel_text 0xffff_8000_0010_0000 8 two_tables (omega arith)
