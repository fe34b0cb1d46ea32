-- ===== src/Paging/Rounds.antt =====
-- The loop of `add_to_hhdm` ends.
use xinix.Base.{
  ℕ, zero, suc, ◌+◌, ◌-◌, ◌*◌, ◌/◌, ◌≤◌, ◌<◌, ◌≡◌, arith, Bool-cases, Option-cases, inl, inr, Bool,
  true, false, not, ◌==◌, if◌then◌else◌, bit_and, bit_or, u64, sub64,
}
use xinix.Base.Bits.{bit_and_low, bit_or_step, bit_or-zero}
use xinix.Heap.{aligned_alloc}
use xinix.Paging.{
  Store, write_entry, clear_table, set_flags, Outcome, mapped, halted, null_table, unfinished,
  Request, virt_addr, entry_p, add_rounds, add_to_hhdm, addr_sign_extend,
}

pub finished : Outcome → Bool
finished unfinished = false
finished (mapped s) = true
finished halted = true
finished null_table = true

abbrev present : ℕ → Bool
present entry = not (bit_and entry 1 == 0)

-- An entry whose lowest bit was set is present.
present-or : (x : ℕ) → present (bit_or x 1) ≡ true
present-or x = ground (arith, bit_and_low 1 (bit_or x 1), bit_or_step x 1, bit_or-zero (x / 2))

-- The rounds that a level needs at most: two for each level above that of the pages, and one more, or
-- one less as the entry is present.
abbrev rounds_left : ℕ → Request → Bool → ℕ
rounds_left cur_level q is_present =
    2 * (cur_level - (q.granularity + 1)) + (if is_present then 1 else 2)

fewer :
    (q : Request) (cur_level rounds : ℕ) (is_present : Bool)
    → 2 * (cur_level - (q.granularity + 1)) + 2 ≤ rounds
    → rounds_left cur_level q is_present ≤ rounds
fewer q cur_level rounds true h = omega arith
fewer q cur_level rounds false h = h

add_rounds-finished :
    (rounds : ℕ) (q : Request) (cur_level page_table : ℕ) (s : Store)
    → q.granularity + 1 ≤ cur_level
    → rounds_left cur_level q (present (s.entry_at (entry_p page_table cur_level (virt_addr q))))
      ≤ rounds
    → finished (add_rounds rounds q cur_level page_table s) ≡ true
unfolding finished add_rounds
add_rounds-finished zero q cur_level page_table s above enough = ground arith
add_rounds-finished (suc rounds) q cur_level page_table s above enough =
    let p = entry_p page_table cur_level (virt_addr q) in
    elim (Bool-cases (present (s.entry_at p))) [
      | inl here ↦ elim (Bool-cases (cur_level == q.granularity + 1)) [
        | inl matches ↦ ground (arith, here, matches)
        | inr higher ↦
            let opened = set_flags (s.entry_at p) q.mem_flags true in
            let lower =
              addr_sign_extend (u64 (bit_and opened 0x000f_ffff_ffff_f000 + q.hhdm_off)) in
            let over : q.granularity + 1 < cur_level = ground (arith, higher, above) in
            let needs : 2 * (cur_level - (q.granularity + 1)) + 1 ≤ suc rounds =
              ground (arith, here, enough) in
            ground (
              arith,
              here,
              higher,
              add_rounds-finished rounds q (cur_level - 1) lower (write_entry p opened s)
                  (omega (arith, over))
                  (fewer q (cur_level - 1) rounds _ (omega (arith, over, needs))),
            )
      ]
      | inr absent ↦ elim (Bool-cases (cur_level == q.granularity + 1)) [
        | inl matches ↦ ground (arith, absent, matches)
        | inr higher ↦ elim (Option-cases (aligned_alloc s.heap 0x1000 4096).0) [
          | inl no_table ↦ ground (arith, absent, higher, no_table)
          | inr (t, table) ↦
              let pointer = set_flags (sub64 t q.hhdm_off) q.mem_flags true in
              let s1 =
                write_entry p (bit_or pointer 1)
                  (clear_table t (record s { heap = (aligned_alloc s.heap 0x1000 4096).1 })) in
              let stored : present (s1.entry_at p) ≡ true = ground (arith, present-or pointer) in
              let needs : 2 * (cur_level - (q.granularity + 1)) + 2 ≤ suc rounds =
                ground (arith, absent, enough) in
              ground (
                arith,
                absent,
                higher,
                table,
                add_rounds-finished rounds q cur_level page_table s1 above
                    (ground (arith, stored, needs)),
              )
        ]
      ]
    ]

-- For pages of 4 KiB, 2 MiB or 1 GiB eight rounds are enough, whatever the tables hold.
pub add_to_hhdm-finished :
    (q : Request) (page_table : ℕ) (s : Store)
    → q.granularity ≤ 2
    → finished (add_to_hhdm q page_table s) ≡ true
unfolding add_to_hhdm
add_to_hhdm-finished q page_table s small =
    add_rounds-finished 8 q 4 page_table s (omega arith) (fewer q 4 8 _ (omega arith))
