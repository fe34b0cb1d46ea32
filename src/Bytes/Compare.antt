-- ===== src/Bytes/Compare.antt =====
-- `memcmp` against the order of the first difference.
use xinix.Base.{ℕ, zero, suc, ◌+◌, ◌≤◌, ◌<◌, ◌≡◌, inl, inr, ◌==◌, ltb, arith, Bool-cases}
use xinix.Bytes.{Memory, Sign, minus, same, plus, compare_from, memcmp}

-- The two blocks of `n` bytes agree before `i` and differ at `i`, where `x` is below `y`.
abbrev pub FirstBelow : Memory → ℕ → ℕ → ℕ → Type 0
FirstBelow m x y n =
    (i : ℕ) × (i < n) × (m (x + i) < m (y + i)) × ((j : ℕ) → j < i → m (x + j) ≡ m (y + j))

-- What each result says of the blocks.
abbrev pub Means : Memory → ℕ → ℕ → ℕ → Sign → Type 0
Means m x y n minus = FirstBelow m x y n
Means m x y n same = (i : ℕ) → i < n → m (x + i) ≡ m (y + i)
Means m x y n plus = FirstBelow m y x n

-- The same, of what is left from `i` on.
abbrev Rest : Memory → ℕ → ℕ → ℕ → ℕ → Sign → Type 0
Rest m x y i left minus =
    (k : ℕ) × (i ≤ k)
    × (k < i + left)
    × (m (x + k) < m (y + k))
    × ((j : ℕ) → i ≤ j → j < k → m (x + j) ≡ m (y + j))
Rest m x y i left same = (k : ℕ) → i ≤ k → k < i + left → m (x + k) ≡ m (y + k)
Rest m x y i left plus =
    (k : ℕ) × (i ≤ k)
    × (k < i + left)
    × (m (y + k) < m (x + k))
    × ((j : ℕ) → i ≤ j → j < k → m (y + j) ≡ m (x + j))

Rest-step :
    (m : Memory) (x y i left : ℕ) (s : Sign)
    → m (x + i) ≡ m (y + i)
    → Rest m x y (i + 1) left s
    → Rest m x y i (suc left) s
Rest-step m x y i left minus e (k, lo, hi, lt, before) =
    (k, omega arith, omega arith, lt, λ j p q. ground (arith, before j))
Rest-step m x y i left same e all = λ k lo hi. ground (arith, all k)
Rest-step m x y i left plus e (k, lo, hi, lt, before) =
    (k, omega arith, omega arith, lt, λ j p q. ground (arith, before j))

compare_Rest : (m : Memory) (x y left i : ℕ) → Rest m x y i left (compare_from m x y left i)
unfolding compare_from
compare_Rest m x y zero i = λ k lo hi. absurd (omega arith)
compare_Rest m x y (suc left) i = elim (Bool-cases (m (x + i) == m (y + i))) [
  | inl e ↦
      rw (e, compare_from)
        (Rest-step m x y i left (compare_from m x y left (i + 1)) (ground arith)
          (compare_Rest m x y left (i + 1)))
  | inr ne ↦ elim (Bool-cases (ltb (m (x + i)) (m (y + i)))) [
    | inl lt ↦
        rw (ne, lt, compare_from)
          (i, omega arith, omega arith, ground arith, λ j p q. absurd (omega arith))
    | inr ge ↦
        rw (ne, ge, compare_from)
          (i, omega arith, omega arith, ground arith, λ j p q. absurd (omega arith))
  ]
]

Rest-Means : (m : Memory) (x y n : ℕ) (s : Sign) → Rest m x y 0 n s → Means m x y n s
Rest-Means m x y n minus (k, lo, hi, lt, before) = (k, omega arith, lt, λ j. before j (omega arith))
Rest-Means m x y n same all = λ k hi. all k (omega arith) (omega arith)
Rest-Means m x y n plus (k, lo, hi, lt, before) = (k, omega arith, lt, λ j. before j (omega arith))

-- `memcmp` gives -1 or 1 by the first byte at which the blocks differ, and 0 only for equal blocks.
pub memcmp-Means : (m : Memory) (x y n : ℕ) → Means m x y n (memcmp x y n m)
unfolding memcmp
memcmp-Means m x y n = Rest-Means m x y n (compare_from m x y n 0) (compare_Rest m x y n 0)
