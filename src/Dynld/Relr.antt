-- ===== src/Dynld/Relr.antt =====
-- The compressed relative relocations in `dynld_link`.
use native.Mathlib.Nat.{pow-suc, one-le-pow, pow-le-pow_right}
use xinix.Base.{
  ℕ, zero, suc, ◌+◌, ◌*◌, ◌/◌, ◌%◌, ◌^◌, ◌≤◌, ◌<◌, ◌≡◌, ◌≢◌, refl, ap, ◌∙◌, arith, inl, inr,
  Bool-cases, Bool, true, false, not, ◌==◌, if◌then◌else◌, bit_and, u64,
}
use xinix.Base.Bits.{bit_and_low}
use xinix.Dynld.{Result, ok, error, Words, store_word, err_image_validation_error}

-- `*p += (ElfNative_Addr)base;`
abbrev pub add_base : ℕ → ℕ → Words → Words
add_base base p m = store_word m p (u64 (m p + base))

-- The loop over the bits of a bitmap: `current` and the words afterwards
pub relr_bits : ℕ → ℕ → ℕ → ℕ → Words → ℕ × Words
relr_bits zero base val current m = (current, m)
relr_bits (suc rounds) base val current m =
    let v = val / 2 in
    let c = current + 8 in
    let m1 = if bit_and v 1 == 0 then m else add_base base c m in
    let rest = relr_bits rounds base v c m1 in if v == 0 then (c, m1) else rest

-- The loop over the table, of which `left` words remain; a bitmap of 64 bits takes 64 rounds at most.
unfoldable pub relr_loop : ℕ → ℕ → ℕ → ℕ → Words → Result Words
relr_loop zero base relr current m = ok m
relr_loop (suc left) base relr current m =
    let val = m relr in
    let c = u64 (base + val) in
    let address = relr_loop left base (relr + 8) c (add_base base c m) in
    let bits = relr_bits 64 base val current m in
    let bitmap = relr_loop left base (relr + 8) bits.0 bits.1 in
    if bit_and val 1 == 0
    then address
    else if current == 0
    then error err_image_validation_error
    else bitmap

-- Digit `k` of a number
abbrev pub bit_at : ℕ → ℕ → Bool
bit_at zero val = val % 2 == 1
bit_at (suc k) val = bit_at k (val / 2)

bit_at-zero : (k : ℕ) → bit_at k 0 ≡ false
bit_at-zero zero = refl
bit_at-zero (suc k) = bit_at-zero k

low_bit : (v : ℕ) → (bit_and v 1 == 0) ≡ not (v % 2 == 1)
low_bit v = ground (arith, bit_and_low 1 v)

relr_bits-others :
    (rounds base val current : ℕ) (m : Words) (x : ℕ)
    → ((k : ℕ) → x ≢ current + 8 * suc k)
    → (relr_bits rounds base val current m).1 x ≡ m x
unfolding relr_bits
relr_bits-others zero base val current m x apart = refl
relr_bits-others (suc rounds) base val current m x apart =
    let v = val / 2 in
    let c = current + 8 in
    let m1 : Words = if bit_and v 1 == 0 then m else add_base base c m in
    let elsewhere : (x == c) ≡ false = ground (arith, apart 0) in
    let kept : m1 x ≡ m x = ground (arith, elsewhere) in
    let rest = relr_bits-others rounds base v c m1 x (λ k e. apart (suc k) (omega (arith, e))) in
    elim (Bool-cases (v == 0)) [
      | inl done ↦ rw done kept
      | inr more ↦ rw (more, relr_bits) (rest ∙ kept)
    ]

relr_bits-words :
    (rounds base val current : ℕ) (m : Words) (k : ℕ)
    → val < 2 ^ rounds
    → 0 < val
    → (relr_bits rounds base val current m).1 (current + 8 * suc k) ≡ (
        if bit_at (suc k) val
        then u64 (m (current + 8 * suc k) + base)
        else m (current + 8 * suc k))
unfolding relr_bits
relr_bits-words zero base val current m k small some = absurd (omega arith)
relr_bits-words (suc rounds) base val current m zero small some =
    let v = val / 2 in
    let c = current + 8 in
    let m1 : Words = if bit_and v 1 == 0 then m else add_base base c m in
    let here : m1 c ≡ (if v % 2 == 1 then u64 (m c + base) else m c) = ground (arith, low_bit v) in
    let rest = relr_bits-others rounds base v c m1 c (λ k e. absurd (omega (arith, e))) in
    let place : current + 8 * suc zero ≡ c = omega arith in
    elim (Bool-cases (v == 0)) [
      | inl done ↦ rw (place, done) here
      | inr more ↦ rw (place, more, relr_bits) (rest ∙ here)
    ]
relr_bits-words (suc rounds) base val current m (suc k) small some =
    let v = val / 2 in
    let c = current + 8 in
    let x = c + 8 * suc k in
    let m1 : Words = if bit_and v 1 == 0 then m else add_base base c m in
    let place : current + 8 * suc (suc k) ≡ x = omega arith in
    let elsewhere : (x == c) ≡ false = ground arith in
    let kept : m1 x ≡ m x = ground (arith, elsewhere) in
    elim (Bool-cases (v == 0)) [
      | inl done ↦
          let none_left : v ≡ 0 = ground (arith, done) in
          let digit : bit_at (suc k) v ≡ false =
            ap (bit_at (suc k)) none_left ∙ bit_at-zero (suc k) in
          rw (place, done) (rw digit kept)
      | inr more ↦
          let rest =
            relr_bits-words rounds base v c m1 k (omega (arith, pow-suc 2 rounds))
              (ground (arith, more)) in
          rw (place, more, relr_bits) (rest ∙ rw kept refl)
    ]

relr_bits-current :
    (n rounds base val current : ℕ) (m : Words)
    → 2 ^ n ≤ val
    → val < 2 ^ suc n
    → n < rounds
    → (relr_bits rounds base val current m).0 ≡ current + 8 * suc n
unfolding relr_bits
relr_bits-current n zero base val current m low high enough = absurd (omega arith)
relr_bits-current zero (suc rounds) base val current m low high enough =
    let done : (val / 2 == 0) ≡ true = ground arith in rw done (omega arith)
relr_bits-current (suc n) (suc rounds) base val current m low high enough =
    let v = val / 2 in
    let c = current + 8 in
    let m1 : Words = if bit_and v 1 == 0 then m else add_base base c m in
    let above : 2 ^ n ≤ v = omega (arith, pow-suc 2 n) in
    let more : (v == 0) ≡ false = ground (arith, above, one-le-pow n 2 (omega arith)) in
    rw (more, relr_bits)
      (relr_bits-current n rounds base v c m1 above (omega (arith, pow-suc 2 (suc n), pow-suc 2 n))
          (omega arith)
        ∙ omega arith)

-- A bitmap of `n + 1` digits, at most 64, moves every word behind the current one whose bit is set,
-- and no other, but leaves the current word `n + 1` words further, not 63.
pub relr_bits_lem :
    (n base val current : ℕ) (m : Words)
    → 2 ^ n ≤ val
    → val < 2 ^ suc n
    → n < 64
    → ((k : ℕ)
        → (relr_bits 64 base val current m).1 (current + 8 * suc k) ≡ (
            if bit_at (suc k) val
            then u64 (m (current + 8 * suc k) + base)
            else m (current + 8 * suc k)))
      × ((x : ℕ)
          → ((k : ℕ) → x ≢ current + 8 * suc k)
          → (relr_bits 64 base val current m).1 x ≡ m x)
      × ((relr_bits 64 base val current m).0 ≡ current + 8 * suc n)
relr_bits_lem n base val current m low high enough = (
  λ k.
      relr_bits-words 64 base val current m k
        (omega
          (arith, high, pow-le-pow_right {n = 2} (omega arith) {i = suc n} {j = 64} (omega arith)))
        (omega (arith, low, one-le-pow n 2 (omega arith))),
  relr_bits-others 64 base val current m,
  relr_bits-current n 64 base val current m low high enough,
)
