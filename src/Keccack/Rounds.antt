-- ===== src/Keccack/Rounds.antt =====
-- What the steps of a round do to each word.
use xinix.Base.{
  ◌&&◌, ℕ, zero, suc, ◌+◌, ◌*◌, ◌%◌, ◌<◌, ◌≡◌, refl, ap, sym, ◌∙◌, arith, true, false, inl, inr,
  Bool-cases, ◌==◌, if◌then◌else◌, bit_and, bit_xor, not64,
}
use xinix.Base.Bits.{bit_xor-zero}
use xinix.Keccack.{
  for_range, State, lane, rotate_right, rc_step, keccack_rc, round_constant, sha3_permute_iota,
  sha3_permute_chi, sha3_permute_theta, sha3_permute_pi, sha3_permute_rho, sha3_round,
}

-- A statement at each of the five indices
below_5 : (P : ℕ → Type 0) → P 0 → P 1 → P 2 → P 3 → P 4 → (i : ℕ) → i < 5 → P i
below_5 P p0 p1 p2 p3 p4 zero h = p0
below_5 P p0 p1 p2 p3 p4 (suc zero) h = p1
below_5 P p0 p1 p2 p3 p4 (suc (suc zero)) h = p2
below_5 P p0 p1 p2 p3 p4 (suc (suc (suc zero))) h = p3
below_5 P p0 p1 p2 p3 p4 (suc (suc (suc (suc zero)))) h = p4
below_5 P p0 p1 p2 p3 p4 (suc (suc (suc (suc (suc i))))) h = absurd (omega arith)

-- A statement at each of the 25 places, by columns
abbrev Column : (ℕ → ℕ → Type 0) → ℕ → Type 0
Column P j = P 0 j × P 1 j × P 2 j × P 3 j × P 4 j

each_place :
    (P : ℕ → ℕ → Type 0)
    → Column P 0 × Column P 1 × Column P 2 × Column P 3 × Column P 4
    → (i j : ℕ) → i < 5
    → j < 5
    → P i j
each_place P (c0, c1, c2, c3, c4) i j hi hj =
    below_5 (λ j. P i j) (column 0 c0) (column 1 c1) (column 2 c2) (column 3 c3) (column 4 c4) j hj
  where
    column : (j : ℕ) → Column P j → P i j
    column j (p0, p1, p2, p3, p4) = below_5 (λ i. P i j) p0 p1 p2 p3 p4 i hi

rc_zero : (n from : ℕ) → for_range n from (λ i. rc_step) 0 ≡ 0
unfolding for_range rc_step
rc_zero zero from = refl
rc_zero (suc n) from = rc_zero n (from + 1)

-- One turn takes the only bit out of the register.
rc_from_one : (n : ℕ) → 0 < n → for_range n 1 (λ i. rc_step) 1 ≡ 0
unfolding for_range rc_step
rc_from_one zero h = absurd (omega arith)
rc_from_one (suc n) h = rc_zero n 2

-- The feedback is taken from bits that the register never has set: `keccack_rc` is 1 at the multiples
-- of 255 and 0 everywhere else.
pub keccack_rc_lem : (t : ℕ) → keccack_rc t ≡ (if t % 255 == 0 then 1 else 0)
unfolding keccack_rc
keccack_rc_lem t = elim (Bool-cases (t % 255 == 0)) [
  | inl whole ↦ rw whole refl
  | inr other ↦ rw (other, rc_from_one (t % 255) (ground (arith, other))) refl
]

rc_later : (round n : ℕ) → round < 24 → 0 < n → n < 7 → keccack_rc (round * 7 + n) ≡ 0
rc_later round n inside later last =
    let other : ((round * 7 + n) % 255 == 0) ≡ false = ground (arith, inside, later, last) in
    keccack_rc_lem (round * 7 + n) ∙ rw other refl

rc_first : (round : ℕ) → round < 24 → keccack_rc (round * 7 + 0) ≡ (if round == 0 then 1 else 0)
rc_first round inside = elim (Bool-cases (round == 0)) [
  | inl first ↦
      let whole : ((round * 7 + 0) % 255 == 0) ≡ true = ground (arith, first) in
      keccack_rc_lem (round * 7 + 0) ∙ rw (whole, first) refl
  | inr later ↦
      let other : ((round * 7 + 0) % 255 == 0) ≡ false = ground (arith, inside, later) in
      keccack_rc_lem (round * 7 + 0) ∙ rw (other, later) refl
]

-- In the 24 rounds only the first one has a constant.
round_constant_lem : (round : ℕ) → round < 24 → round_constant round ≡ (if round == 0 then 1 else 0)
unfolding round_constant for_range
round_constant_lem round inside =
    rw
      (
        rc_first round inside,
        rc_later round 1 inside (omega arith) (omega arith),
        rc_later round 2 inside (omega arith) (omega arith),
        rc_later round 3 inside (omega arith) (omega arith),
        rc_later round 4 inside (omega arith) (omega arith),
        rc_later round 5 inside (omega arith) (omega arith),
        rc_later round 6 inside (omega arith) (omega arith),
      )
      (elim (Bool-cases (round == 0)) [ inl first ↦ rw first refl | inr later ↦ rw later refl ])

-- The word that a step leaves at a place
abbrev pub theta_word : State → ℕ → ℕ → ℕ
theta_word s i j =
    for_range 5 0
      (λ k w.
        bit_xor w
          (bit_xor (s (lane k ((j + 4) % 5))) (rotate_right 64 (s (lane k ((j + 1) % 5))) 1)))
      (s (lane i j))

abbrev pub chi_word : (ℕ → ℕ → ℕ) → ℕ → ℕ → ℕ
chi_word b i j = bit_xor (b i j) (bit_and (not64 (b i ((j + 1) % 5))) (b i ((j + 2) % 5)))

theta_lem :
    (s : State) (i j : ℕ) → i < 5 → j < 5 → sha3_permute_theta s (lane i j) ≡ theta_word s i j
unfolding sha3_permute_theta for_range
theta_lem s =
    each_place (λ i j. sha3_permute_theta s (lane i j) ≡ theta_word s i j)
      (
        (refl, refl, refl, refl, refl),
        (refl, refl, refl, refl, refl),
        (refl, refl, refl, refl, refl),
        (refl, refl, refl, refl, refl),
        (refl, refl, refl, refl, refl),
      )

pi_lem :
    (s : State) (i j : ℕ)
    → i < 5
    → j < 5
    → sha3_permute_pi s (lane i j) ≡ s (lane j ((3 * i + j) % 5))
unfolding sha3_permute_pi for_range
pi_lem s =
    each_place (λ i j. sha3_permute_pi s (lane i j) ≡ s (lane j ((3 * i + j) % 5)))
      (
        (refl, refl, refl, refl, refl),
        (refl, refl, refl, refl, refl),
        (refl, refl, refl, refl, refl),
        (refl, refl, refl, refl, refl),
        (refl, refl, refl, refl, refl),
      )

chi_lem :
    (s : State) (i j : ℕ)
    → i < 5
    → j < 5
    → sha3_permute_chi s (lane i j) ≡ chi_word (λ i j. s (lane i j)) i j
unfolding sha3_permute_chi for_range
chi_lem s =
    each_place (λ i j. sha3_permute_chi s (lane i j) ≡ chi_word (λ i j. s (lane i j)) i j)
      (
        (refl, refl, refl, refl, refl),
        (refl, refl, refl, refl, refl),
        (refl, refl, refl, refl, refl),
        (refl, refl, refl, refl, refl),
        (refl, refl, refl, refl, refl),
      )

-- The word that a round leaves at a place, but for its constant
abbrev pub round_word : State → ℕ → ℕ → ℕ
round_word s = chi_word (λ i j. theta_word s j ((3 * i + j) % 5))

before_iota :
    (s : State) (i j : ℕ)
    → i < 5
    → j < 5
    → sha3_permute_chi (sha3_permute_pi (sha3_permute_rho (sha3_permute_theta s))) (lane i j)
      ≡ round_word s i j
unfolding sha3_permute_rho for_range
before_iota s i j hi hj =
    let t = sha3_permute_theta s in
    let at : (j : ℕ) → j < 5 → sha3_permute_pi t (lane i j) ≡ theta_word s j ((3 * i + j) % 5) =
      λ j h. pi_lem t i j hi h ∙ theta_lem s j ((3 * i + j) % 5) h (omega arith) in
    chi_lem (sha3_permute_pi t) i j hi hj
    ∙ rw (at j hj, at ((j + 1) % 5) (omega arith), at ((j + 2) % 5) (omega arith)) refl

-- A round leaves at each place the word of theta, pi and chi alone: rho moves no bit, and only the
-- first of the 24 rounds changes the word at the start, by its lowest bit.
pub sha3_round_lem :
    (l : ℕ) (s : State) (i j : ℕ)
    → l < 24
    → i < 5
    → j < 5
    → sha3_round l s (lane i j)
      ≡ (if (l == 0) && (lane i j == 0) then bit_xor (round_word s i j) 1 else round_word s i j)
unfolding sha3_round sha3_permute_iota
sha3_round_lem l s i j first hi hj =
    let mixed = sha3_permute_chi (sha3_permute_pi (sha3_permute_rho (sha3_permute_theta s))) in
    elim (Bool-cases (lane i j == 0)) [
      | inr inner ↦ rw inner (
          before_iota s i j hi hj
          ∙ elim (Bool-cases (l == 0)) [ inl e ↦ rw e refl | inr e ↦ rw e refl ])
      | inl start ↦
          let at : lane i j ≡ 0 = ground (arith, start) in
          let value : mixed (lane 0 0) ≡ round_word s i j =
            ap mixed (sym at) ∙ before_iota s i j hi hj in
          rw (start, value, round_constant_lem l first)
            (elim (Bool-cases (l == 0)) [
              | inl e ↦ rw e refl
              | inr e ↦ rw e (bit_xor-zero (round_word s i j))
            ])
    ]
