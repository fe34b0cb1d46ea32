-- ===== src/Bytes/Strings.antt =====
-- `strlen` and the two versions of `strnlen`.
use xinix.Base.{
  ℕ, zero, suc, ◌+◌, ◌-◌, ◌^◌, ◌≤◌, ◌<◌, ◌≡◌, ◌≢◌, refl, ◌⊎◌, inl, inr, none, some, ◌==◌, arith,
  Bool-cases,
}
use xinix.Bytes.{
  Mapped, strlen_from, strlen, strnlen_from, strnlen, prekernel_strnlen_from, prekernel_strnlen,
}

-- A text of `len` bytes other than 0 stands at `str`.
abbrev pub IsText : Mapped → ℕ → ℕ → Type 0
IsText m str len = (i : ℕ) → i < len → (c : ℕ) × (m (str + i) ≡ some c) × (c ≢ 0)

strlen_from_lem :
    (m : Mapped) (str len fuel i : ℕ)
    → IsText m str len
    → m (str + len) ≡ some 0
    → i ≤ len
    → len - i < fuel
    → strlen_from m str fuel i ≡ some len
unfolding strlen_from
strlen_from_lem m str len zero i t z le f = elim f [ ]
strlen_from_lem m str len (suc fuel) i t z le f = elim (Bool-cases (i == len)) [
  | inl e ↦ ground (arith, z)
  | inr ne ↦
      let (c, at, pos) = t i (ground arith) in
      ground (arith, strlen_from_lem m str len fuel (i + 1) t z)
]

-- `strlen` of a text is its length, wherever it stands.
pub strlen_lem :
    (m : Mapped) (str len : ℕ)
    → IsText m str len
    → m (str + len) ≡ some 0
    → len < 2 ^ 64
    → strlen m str ≡ some len
unfolding strlen
strlen_lem m str len t z lt = strlen_from_lem m str len (2 ^ 64) 0 t z (omega arith) (omega arith)

prekernel_strnlen_from_lem :
    (m : Mapped) (s len left i : ℕ)
    → IsText m s len
    → i ≤ len
    → (len ≡ i + left) ⊎ ((len < i + left) × (m (s + len) ≡ some 0))
    → prekernel_strnlen_from m s left i ≡ some len
unfolding prekernel_strnlen_from
prekernel_strnlen_from_lem m s len zero i t le stop = ground arith
prekernel_strnlen_from_lem m s len (suc left) i t le stop = elim (Bool-cases (i == len)) [
  | inl e ↦ ground arith
  | inr ne ↦
      let (c, at, pos) = t i (ground arith) in
      ground (arith, prekernel_strnlen_from_lem m s len left (i + 1) t)
]

-- The prekernel's `strnlen` finds the end of a text that ends before `maxlen` bytes, or gives
-- `maxlen`, and reads no further.
pub prekernel_strnlen_lem :
    (m : Mapped) (s len maxlen : ℕ)
    → IsText m s len
    → (len ≡ maxlen) ⊎ ((len < maxlen) × (m (s + len) ≡ some 0))
    → prekernel_strnlen m s maxlen ≡ some len
unfolding prekernel_strnlen
prekernel_strnlen_lem m s len maxlen t stop =
    prekernel_strnlen_from_lem m s len maxlen 0 t (omega arith) (ground arith)

strnlen_from_agrees :
    (m : Mapped) (str left i : ℕ)
    → ((j : ℕ) → j ≤ i + left → (c : ℕ) × (m (str + j) ≡ some c))
    → strnlen_from m str left i ≡ prekernel_strnlen_from m str left i
unfolding strnlen_from prekernel_strnlen_from
strnlen_from_agrees m str zero i all = let (c, at) = all i (omega arith) in ground arith
strnlen_from_agrees m str (suc left) i all =
    let (c, at) = all i (omega arith) in
    ground (arith, strnlen_from_agrees m str left (i + 1) (λ j le. all j (omega arith)))

-- Where one byte more than `maxlen` can be read, the two versions give the same.
pub strnlen-prekernel_strnlen :
    (m : Mapped) (str maxlen : ℕ)
    → ((j : ℕ) → j ≤ maxlen → (c : ℕ) × (m (str + j) ≡ some c))
    → strnlen m str maxlen ≡ prekernel_strnlen m str maxlen
unfolding strnlen prekernel_strnlen
strnlen-prekernel_strnlen m str maxlen all =
    strnlen_from_agrees m str maxlen 0 (λ j le. all j (omega arith))

strnlen_from_faults :
    (m : Mapped) (str len left i : ℕ)
    → IsText m str len
    → len ≡ i + left
    → m (str + len) ≡ none
    → strnlen_from m str left i ≡ none
unfolding strnlen_from
strnlen_from_faults m str len zero i t e z = ground arith
strnlen_from_faults m str len (suc left) i t e z =
    let (c, at, pos) = t i (omega arith) in
    ground (arith, strnlen_from_faults m str len left (i + 1) t)

-- A buffer of `maxlen` bytes with no end mark, before a byte that cannot be read: the kernel's
-- version faults on that byte, and the prekernel's gives `maxlen`.
pub strnlen_overread :
    (m : Mapped) (str maxlen : ℕ)
    → IsText m str maxlen
    → m (str + maxlen) ≡ none
    → (strnlen m str maxlen ≡ none) × (prekernel_strnlen m str maxlen ≡ some maxlen)
unfolding strnlen
strnlen_overread m str maxlen t z = (
  strnlen_from_faults m str maxlen maxlen 0 t (omega arith) z,
  prekernel_strnlen_lem m str maxlen maxlen t (inl refl),
)
