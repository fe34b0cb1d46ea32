-- ===== src/Bytes/Copy.antt =====
-- `memcpy`, `memmove` and `memset`, byte by byte.
use xinix.Base.{
  ℕ, zero, suc, ◌+◌, ◌-◌, ◌≤◌, ◌≡◌, ◌∙◌, ◌⊎◌, inl, inr, Bool, ◌&&◌, ltb, leb, if◌then◌else◌, u8,
  arith, Bool-cases,
}
use xinix.Bytes.{Memory, update, copy_up, copy_down, memcpy, memmove, set_up, memset}

-- The address lies among `n` from `start`.
abbrev pub inside : ℕ → ℕ → ℕ → Bool
inside start n a = leb start a && ltb a (start + n)

-- Memory after `n` bytes at `dest` became those that stood at `src`.
abbrev pub moved : ℕ → ℕ → ℕ → Memory → Memory
moved dest src n m a = if inside dest n a then m (src + (a - dest)) else m a

-- Upward, a round overwrites no byte that a later one reads, if `dest` lies below `src` or the two
-- blocks are apart.
copy_up_lem :
    (dest src left i a : ℕ) (m : Memory)
    → (dest ≤ src) ⊎ (src + (i + left) ≤ dest)
    → copy_up dest src left i m a ≡ (if inside (dest + i) left a then m (src + (a - dest)) else m a)
unfolding copy_up
copy_up_lem dest src zero i a m h = ground arith
copy_up_lem dest src (suc left) i a m h =
    copy_up_lem dest src left (i + 1) a (update m (dest + i) (m (src + i))) (omega arith)
    ∙ ground arith

copy_down_lem :
    (dest src n a : ℕ) (m : Memory) → src ≤ dest → copy_down dest src n m a ≡ moved dest src n m a
unfolding copy_down
copy_down_lem dest src zero a m h = ground arith
copy_down_lem dest src (suc i) a m h =
    copy_down_lem dest src i a (update m (dest + i) (m (src + i))) h ∙ ground arith

copy_up-moved :
    (dest src n : ℕ) (m : Memory) (a : ℕ)
    → (dest ≤ src) ⊎ (src + n ≤ dest)
    → copy_up dest src n 0 m a ≡ moved dest src n m a
copy_up-moved dest src n m a h = copy_up_lem dest src n 0 a m (omega arith) ∙ ground arith

-- Whatever way the two blocks overlap, `memmove` leaves at `dest` the bytes that stood at `src`
-- before the call, and every other byte as it was.
pub memmove_lem :
    (dest src n : ℕ) (m : Memory) (a : ℕ) → memmove dest src n m a ≡ moved dest src n m a
unfolding memmove
memmove_lem dest src n m a = elim (Bool-cases (ltb dest src)) [
  | inl up ↦ rw (up, memmove) (copy_up-moved dest src n m a (ground arith))
  | inr not_up ↦ elim (Bool-cases (ltb src dest)) [
    | inl down ↦ rw (not_up, down, memmove) (copy_down_lem dest src n a m (ground arith))
    | inr not_down ↦ rw (not_up, not_down, memmove) (ground arith)
  ]
]

-- `memcpy` does the same, if the blocks are apart.
pub memcpy_lem :
    (dest src n : ℕ) (m : Memory) (a : ℕ)
    → (dest + n ≤ src) ⊎ (src + n ≤ dest)
    → memcpy dest src n m a ≡ moved dest src n m a
unfolding memcpy
memcpy_lem dest src n m a apart = copy_up-moved dest src n m a (omega arith)

set_up_lem :
    (s c left i : ℕ) (m : Memory) (a : ℕ)
    → set_up s c left i m a ≡ (if inside (s + i) left a then u8 c else m a)
unfolding set_up
set_up_lem s c zero i m a = ground arith
set_up_lem s c (suc left) i m a =
    set_up_lem s c left (i + 1) (update m (s + i) (u8 c)) a ∙ ground arith

-- `memset` writes the low byte of `c` to the `n` bytes at `s` and changes no other.
pub memset_lem :
    (s c n : ℕ) (m : Memory) (a : ℕ) → memset s c n m a ≡ (if inside s n a then u8 c else m a)
unfolding memset
memset_lem s c n m a = set_up_lem s c n 0 m a ∙ ground arith
