-- ===== src/Heap/Calloc.antt =====
-- `calloc`: the overflow guard and the cleared block.
use xinix.Base.{
  ℕ, zero, suc, ◌+◌, ◌-◌, ◌*◌, ◌/◌, ◌^◌, ◌≤◌, ◌<◌, ◌≡◌, ap, ◌∙◌, ◌⊎◌, inl, inr, not, true, false,
  Bool, none, some, arith, leb, ◌==◌, ◌&&◌, u64, if◌then◌else◌,
}
use xinix.Bytes.{Memory, memset}
use xinix.Bytes.Copy.{inside, memset_lem}
use xinix.Heap.{Heap, aligned_alloc, malloc, calloc, zeroed}
use xinix.Heap.Alloc.{round_up, IsBounded, aligned_alloc_lem}
use native.Mathlib.Decide.{dec_le}
use native.Mathlib.Nat.{le-div_iff_mul-le}

-- The product fits a word and is not 0.
abbrev pub Fits : ℕ → ℕ → Type 0
Fits num size = (0 < num) × (0 < size) × (num * size < 2 ^ 64)

abbrev guard : ℕ → ℕ → Bool
guard num size = not (num == 0) && (not (size == 0) && leb size ((2 ^ 64 - 1) / num))

guard_cases :
    (num size : ℕ)
    → ((guard num size ≡ true) × Fits num size)
      ⊎ ((guard num size ≡ false) × ((num * size ≡ 0) ⊎ (2 ^ 64 ≤ num * size)))
guard_cases zero size = ground arith
guard_cases (suc n) zero = ground arith
guard_cases (suc n) (suc m) =
    let iff = le-div_iff_mul-le {k = suc n} {x = suc m} {y = 2 ^ 64 - 1} (omega arith) in
    elim (dec_le (suc m) ((2 ^ 64 - 1) / suc n)) [
      | yes fits ↦ inl (ground arith, (omega arith, omega arith, omega (arith, iff.0 fits)))
      | no over ↦ inr (
        ground arith,
        inr (elim (dec_le (suc m * suc n) (2 ^ 64 - 1)) [
          | yes le ↦ absurd (over (iff.1 le))
          | no gt ↦ omega arith
        ]),
      )
    ]

calloc_shut :
    (h : Heap) (m : Memory) (num size : ℕ)
    → guard num size ≡ false
    → calloc h m num size ≡ (none, h, m)
unfolding calloc
calloc_shut h m num size e = rw e

calloc_open :
    (h : Heap) (m : Memory) (num size : ℕ)
    → guard num size ≡ true
    → num * size < 2 ^ 64
    → calloc h m num size ≡ zeroed m (num * size) (aligned_alloc h (2 ^ 4) (num * size))
unfolding calloc malloc
calloc_open h m num size e lt =
    let word : u64 (num * size) ≡ num * size = omega arith in rw (e, word)

-- The three outcomes of `calloc`: nothing, and nothing changed, when the product is 0 or does not
-- fit a word; a block of the product's size, aligned to 16 and cleared, with no other byte changed;
-- nothing, with the memory unchanged, when that block does not fit below the limit.
pub calloc_lem :
    (h : Heap) (m : Memory) (num size : ℕ)
    → IsBounded h
    → let p = round_up h.ptr 4 in
      let n = num * size in
      (((n ≡ 0) ⊎ (2 ^ 64 ≤ n)) × (calloc h m num size ≡ (none, h, m)))
      ⊎ ((Fits num size
            × (p + n ≤ h.limit)
            × (m' : Memory) × (calloc h m num size ≡ (some p, record h { ptr = p + n }, m'))
            × ((a : ℕ) → m' a ≡ (if inside p n a then 0 else m a)))
          ⊎ (Fits num size
              × (h.limit < p + n)
              × (calloc h m num size ≡ (none, record h { ptr = p }, m))))
calloc_lem h m num size v = elim (guard_cases num size) [
  | inr (shut, why) ↦ inl (why, calloc_shut h m num size shut)
  | inl (open_, fits) ↦
      let opened = calloc_open h m num size open_ fits.2 in
      elim (aligned_alloc_lem h 4 (num * size) v (omega arith) fits.2) [
        | inl (room, e) ↦ inr (
            inl (
              fits,
              room,
              memset (round_up h.ptr 4) 0 (num * size) m,
              opened ∙ ap (zeroed m (num * size)) e,
              λ a. memset_lem (round_up h.ptr 4) 0 (num * size) m a,
            ))
        | inr (more, e) ↦ inr (inr (fits, more, opened ∙ ap (zeroed m (num * size)) e))
      ]
]
