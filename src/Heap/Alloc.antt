-- ===== src/Heap/Alloc.antt =====
-- `aligned_alloc`: alignment, bounds, and blocks that never overlap.
use xinix.Base.{
  ℕ, ◌+◌, ◌-◌, ◌*◌, ◌/◌, ◌%◌, ◌^◌, ◌≤◌, ◌<◌, ◌≡◌, sym, ap, ap₂, ◌∙◌, ◌⊎◌, inl, inr, Option, none,
  some, List, [], ◌∷◌, arith, bit_and, u64, sub64, not64,
}
use xinix.Base.Bits.{bit_and_clear, two_pow_add}
use xinix.Heap.{Heap, take_from, align_up, aligned_alloc}
use native.Mathlib.Decide.{dec_le}
use native.Mathlib.Nat.{
  div-lt_iff_lt-mul, pow-le-pow_right, mul-le-mul_right, mul-mod_left, div-mul-le_self,
  lt-div-mul-add, one-le-pow,
}

-- An alignment that the allocator meets: a power of two up to a page.
abbrev pub round_up : ℕ → ℕ → ℕ
round_up p k = (p + 2 ^ k - 1) / 2 ^ k * 2 ^ k

pow_le : (k w : ℕ) → k + w ≡ 64 → 2 ^ k * 2 ^ w ≡ 2 ^ 64
pow_le k w e = sym (two_pow_add k w) ∙ ap (λ (t : ℕ). 2 ^ t) e

-- The mask arithmetic rounds up to a multiple, where the sum does not wrap.
pub align_up_lem :
    (p k w : ℕ) → k + w ≡ 64 → 0 < w → p + 2 ^ k ≤ 2 ^ 64 → align_up p (2 ^ k) ≡ round_up p k
align_up_lem p k w e pos fits =
    ap₂ bit_and (minus_one (p + 2 ^ k) (omega (arith, one-le-pow k 2 (omega arith))) fits) mask
    ∙ bit_and_clear k w (p + 2 ^ k - 1) (ap_lt (omega arith))
  where
    minus_one : (a : ℕ) → 0 < a → a ≤ 2 ^ 64 → sub64 (u64 a) 1 ≡ a - 1
    minus_one a lo hi = omega arith

    ap_lt : p + 2 ^ k - 1 < 2 ^ 64 → p + 2 ^ k - 1 < 2 ^ (k + w)
    ap_lt h = rw e h

    mask : not64 (sub64 (2 ^ k) 1) ≡ 2 ^ (k + w) - 2 ^ k
    mask = rw e (omega (arith, one-le-pow k 2 (omega arith)))

pub round_up_bounds :
    (p k : ℕ) → (p ≤ round_up p k) × (round_up p k < p + 2 ^ k) × (round_up p k % 2 ^ k ≡ 0)
round_up_bounds p k =
    let pos : 0 < 2 ^ k = one-le-pow k 2 (omega arith) in
    (
      omega (arith, lt-div-mul-add {a = p + 2 ^ k - 1} {b = 2 ^ k} pos),
      omega (arith, div-mul-le_self (p + 2 ^ k - 1) (2 ^ k)),
      mul-mod_left ((p + 2 ^ k - 1) / 2 ^ k) (2 ^ k),
    )

-- Below a multiple of a larger power, rounding up stays below it.
round_up_top : (p t k j : ℕ) → p ≤ t * 2 ^ (k + j) → round_up p k ≤ t * 2 ^ (k + j)
round_up_top p t k j le =
    let pos : 0 < 2 ^ k = one-le-pow k 2 (omega arith) in
    let whole : t * 2 ^ (k + j) ≡ t * 2 ^ j * 2 ^ k =
      omega (arith, ap (λ (x : ℕ). t * x) (two_pow_add k j)) in
    let below : (p + 2 ^ k - 1) / 2 ^ k < t * 2 ^ j + 1 =
      (div-lt_iff_lt-mul pos).1 (omega (arith, whole)) in
    omega (arith, whole, mul-le-mul_right (2 ^ k) below)

-- The last page of the address space is left alone.
abbrev pub top : ℕ
top = 2 ^ 64 - 2 ^ 12

pub record IsBounded (h : Heap) : Type 0 where
  pub ptr_in : h.ptr ≤ top
  pub limit_in : h.limit ≤ top

page_split : (k : ℕ) → k ≤ 12 → 2 ^ k * 2 ^ (12 - k) ≡ 2 ^ 12
page_split k le = sym (two_pow_add k (12 - k)) ∙ ap (λ (t : ℕ). 2 ^ t) {y = 12} (omega arith)

two_pow_page : (k : ℕ) → k ≤ 12 → 2 ^ k ≤ 2 ^ 12
two_pow_page k le = pow-le-pow_right (omega arith) le

take_from_fits :
    (h : Heap) (p size : ℕ)
    → h.limit ≤ top
    → p + size ≤ h.limit
    → take_from h p size ≡ (some p, record h { ptr = p + size })
unfolding take_from
take_from_fits h p size lim fits = ground arith

take_from_fails :
    (h : Heap) (p size : ℕ)
    → h.limit ≤ top
    → p ≤ top
    → size < 2 ^ 64
    → h.limit < p + size
    → take_from h p size ≡ (none, record h { ptr = p })
unfolding take_from
take_from_fails h p size lim pt sz fails = ground arith

round_up_page : (p k : ℕ) → k ≤ 12 → p ≤ top → round_up p k ≤ top
round_up_page p k le pt =
    let page : k + (12 - k) ≡ 12 = omega arith in
    rw page at (round_up_top p (2 ^ 52 - 1) k (12 - k) (rw page pt))

-- `aligned_alloc` with an alignment of a power of two up to a page: the pointer is first rounded
-- up; the request succeeds exactly when its bytes from there lie below the limit, gives the rounded
-- pointer and moves the pointer behind the block.
pub aligned_alloc_lem :
    (h : Heap) (k size : ℕ)
    → IsBounded h
    → k ≤ 12
    → size < 2 ^ 64
    → ((round_up h.ptr k + size ≤ h.limit)
        × (aligned_alloc h (2 ^ k) size
            ≡ (some (round_up h.ptr k), record h { ptr = round_up h.ptr k + size })))
      ⊎ ((h.limit < round_up h.ptr k + size)
          × (aligned_alloc h (2 ^ k) size ≡ (none, record h { ptr = round_up h.ptr k })))
unfolding aligned_alloc
aligned_alloc_lem h k size v le sz =
    let p = round_up h.ptr k in
    let at : align_up h.ptr (2 ^ k) ≡ p =
      align_up_lem h.ptr k (64 - k) (omega arith) (omega arith)
        (omega (arith, two_pow_page k le, v)) in
    elim (dec_le (p + size) h.limit) [
      | yes fits ↦
          inl (fits, ap (λ q. take_from h q size) at ∙ take_from_fits h p size v.limit_in fits)
      | no more ↦
          let more' : h.limit < p + size = omega arith in
          inr (
            more',
            ap (λ q. take_from h q size) at
                ∙ take_from_fails h p size v.limit_in (round_up_page h.ptr k le v.ptr_in) sz more',
          )
    ]

pub record Request : Type 0 where
  pub exponent : ℕ
  pub size : ℕ

abbrev pub AreSmall : List Request → Type 0
AreSmall [] = Unit {0}
AreSmall (r ∷ rs) = (r.exponent ≤ 12) × (r.size < 2 ^ 64) × AreSmall rs

-- Requests in order; each gives its block's address, or nothing.
unfoldable pub alloc_all : Heap → List Request → List (Option ℕ) × Heap
alloc_all h [] = ([], h)
alloc_all h (r ∷ rs) =
    let (p, h') = aligned_alloc h (2 ^ r.exponent) r.size in
    let (ps, h'') = alloc_all h' rs in (p ∷ ps, h'')

-- The blocks lie one behind another, each on its alignment, from `lo` up to `hi`.
abbrev pub Stacked : ℕ → ℕ → List Request → List (Option ℕ) → Type 0
Stacked lo hi [] [] = Unit {0}
Stacked lo hi [] (p ∷ ps) = ⊥
Stacked lo hi (r ∷ rs) [] = ⊥
Stacked lo hi (r ∷ rs) (none ∷ ps) = Stacked lo hi rs ps
Stacked lo hi (r ∷ rs) (some p ∷ ps) =
    (lo ≤ p) × (p + r.size ≤ hi) × (p % 2 ^ r.exponent ≡ 0) × Stacked (p + r.size) hi rs ps

Stacked-mono :
    (lo lo' hi : ℕ) (rs : List Request) (ps : List (Option ℕ))
    → lo ≤ lo'
    → Stacked lo' hi rs ps
    → Stacked lo hi rs ps
Stacked-mono lo lo' hi [] [] le s = s
Stacked-mono lo lo' hi [] (p ∷ ps) le s = s
Stacked-mono lo lo' hi (r ∷ rs) [] le s = s
Stacked-mono lo lo' hi (r ∷ rs) (none ∷ ps) le s = Stacked-mono lo lo' hi rs ps le s
Stacked-mono lo lo' hi (r ∷ rs) (some p ∷ ps) le (a, b, c, d) = (omega arith, b, c, d)

-- On a heap whose addresses leave room for a page, and for requests of any word in size with alignments
-- of a power of two up to a page, the blocks that the heap gives out are aligned, lie between its
-- pointer and its limit, and each begins at or behind the end of every block given before it.
pub alloc_all-Stacked :
    (h : Heap) (rs : List Request)
    → IsBounded h
    → AreSmall rs
    → Stacked h.ptr h.limit rs (alloc_all h rs).0
unfolding alloc_all
alloc_all-Stacked h [] v small = tt
alloc_all-Stacked h (r ∷ rs) v (le, sz, small) =
    let p = round_up h.ptr r.exponent in
    let (low, near, aligned) = round_up_bounds h.ptr r.exponent in
    let page : p ≤ top = round_up_page h.ptr r.exponent le v.ptr_in in
    elim (aligned_alloc_lem h r.exponent r.size v le sz) [
      | inl (fits, e) ↦ rw e (
        low,
        fits,
        aligned,
        alloc_all-Stacked (record h { ptr = p + r.size }) rs
            (record { ptr_in = omega (arith, v); limit_in = v.limit_in }) small,
      )
      | inr (more, e) ↦ rw e (
          Stacked-mono h.ptr p h.limit rs (alloc_all (record h { ptr = p }) rs).0 low (
            alloc_all-Stacked (record h { ptr = p }) rs
              (record { ptr_in = page; limit_in = v.limit_in }) small))
    ]
