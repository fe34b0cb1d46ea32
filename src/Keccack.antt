-- ===== src/Keccack.antt =====
-- The permutation and the sponge of common/include/keccack.h, on a state of 25 words of 64 bits: word
-- 5 i + j is `_state_array[i][j]`. `stdc_rotate_right` is that of common/include/stdbit.h.
pub mod Rounds
mod Examples
use xinix.Base.{
  ℕ, zero, suc, ◌+◌, ◌-◌, ◌*◌, ◌/◌, ◌%◌, ◌^◌, Bool, true, false, Option, none, some, List, [], ◌∷◌,
  get_or, ◌==◌, ltb, if◌then◌else◌, bit_and, bit_or, bit_xor, u8, not64, ◌<<<◌, ◌>>>◌,
}

-- `for (n = from; n < from + count; n++)`
unfoldable pub for_range {ℓ} : {S : Type ℓ} → ℕ → ℕ → (ℕ → S → S) → S → S
for_range zero from body s = s
for_range (suc count) from body s = for_range count (from + 1) body (body from s)

abbrev pub State : Type 0
State = ℕ → ℕ

abbrev pub lane : ℕ → ℕ → ℕ
lane i j = 5 * i + j

abbrev pub write : State → ℕ → ℕ → State
write s k v x = if x == k then v else s x

-- The fallback of the header on `w` bits, `w` a power of two. The shift by `w` for a count of 0 is
-- undefined in C and gives 0 here; no call has that count.
abbrev pub rotate_right : ℕ → ℕ → ℕ → ℕ
rotate_right w value count =
    let n = bit_and count (w - 1) in bit_or (value >>> n) ((value <<< (w - n)) % 2 ^ w)

-- A turn of the loop over the register
pub rc_step : ℕ → ℕ
rc_step result =
    let feedback =
      bit_and
        (bit_xor (bit_xor (bit_xor (result >>> 4) (result >>> 5)) (result >>> 6)) (result >>> 7))
        1 in
    u8 (bit_or (result >>> 1) (feedback <<< 7))

pub keccack_rc : ℕ → ℕ
keccack_rc t = if t % 255 == 0 then 1 else bit_and (for_range (t % 255) 1 (λ i. rc_step) 1) 1

pub round_constant : ℕ → ℕ
round_constant round =
    for_range 7 0 (λ n rc. bit_or rc (keccack_rc (round * 7 + n) <<< (2 ^ n - 1))) 0

pub sha3_permute_iota : State → ℕ → State
sha3_permute_iota s round = write s (lane 0 0) (bit_xor (s (lane 0 0)) (round_constant round))

pub sha3_permute_chi : State → State
sha3_permute_chi old =
    for_range 5 0
      (λ i. for_range 5 0 (λ j s. write s (lane i j) (
        bit_xor (s (lane i j))
          (bit_and (not64 (old (lane i ((j + 1) % 5)))) (old (lane i ((j + 2) % 5)))))))
      old

pub sha3_permute_theta : State → State
sha3_permute_theta new =
    for_range 5 0
      (λ j. for_range 5 0 (λ i. for_range 5 0 (λ k s. write s (lane i j) (
        bit_xor (s (lane i j)) (
          bit_xor (new (lane k ((j + 4) % 5))) (rotate_right 64 (new (lane k ((j + 1) % 5))) 1))))))
      new

pub sha3_permute_pi : State → State
sha3_permute_pi new =
    for_range 5 0
      (λ i. for_range 5 0 (λ j s. write s (lane ((3 * i + 2 * j) % 5) i) (new (lane i j)))) new

-- `_keccack_rotate_amounts`
pub rotate_amounts : List ℕ
rotate_amounts =
    0 ∷ 36 ∷ 3 ∷ 105 ∷ 210 ∷ 1 ∷ 300 ∷ 10 ∷ 45 ∷ 66 ∷ 190 ∷ 6 ∷ 171 ∷ 15 ∷ 253 ∷ 28 ∷ 55 ∷ 153 ∷ 21
    ∷ 120 ∷ 91 ∷ 276 ∷ 231 ∷ 136 ∷ 78 ∷ []

-- Both loops run while their index is below 0.
pub sha3_permute_rho : State → State
sha3_permute_rho s =
    for_range 0 0
      (λ i. for_range 0 0 (λ j s.
        write s (lane i j)
          (rotate_right 64 (s (lane i j)) (bit_and (get_or rotate_amounts (lane i j) 0) 63))))
      s

pub sha3_round : ℕ → State → State
sha3_round l s =
    sha3_permute_iota (sha3_permute_chi (sha3_permute_pi (sha3_permute_rho (sha3_permute_theta s))))
      l

pub sha3_permute : State → State
sha3_permute s = for_range 24 0 sha3_round s

-- Word `k` of bytes in little endian
abbrev pub le_word : (ℕ → ℕ) → ℕ → ℕ
le_word bytes k = for_range 8 0 (λ b w. w + bytes (8 * k + b) * 2 ^ (8 * b)) 0

-- `none` is a copy past the 200 bytes of the state.
pub sha3_absorb : State → (ℕ → ℕ) → ℕ → Option State
sha3_absorb s input rate =
    let copied : ℕ → ℕ = λ b. if ltb b (rate / 8) then input b else 0 in
    if ltb 200 (rate / 8)
    then none
    else some (
        sha3_permute (
          for_range 5 0
            (λ i.
              for_range 5 0
                (λ j s. write s (lane i j) (bit_xor (s (lane i j)) (le_word copied (lane i j)))))
            s))

-- The bytes that are given out, and the state after
unfoldable pub sha3_squeeze : State → ℕ → Option ((ℕ → ℕ) × State)
sha3_squeeze s rate =
    if ltb 200 (rate / 8)
    then none
    else some ((λ b. s (b / 8) / 2 ^ (8 * (b % 8)) % 256), sha3_permute s)
