-- ===== src/Dynld/Hash/Laws.antt =====
-- What the hashes of names are, as numbers.
use native.Mathlib.Nat.{mul-add-mod_self_right, div-add-mod', pow-suc}
use xinix.Base.{
  ℕ, suc, ◌+◌, ◌-◌, ◌*◌, ◌/◌, ◌%◌, ◌^◌, ◌<◌, ◌≡◌, refl, ap, sym, ◌∙◌, arith, inl, inr, Bool-cases,
  true, List, [], ◌∷◌, ◌++◌, length, bit_and, bit_xor, u32, ◌==◌, if◌then◌else◌, holds_below,
  holds_below_lem, ==_iff,
}
use xinix.Base.Bits.{
  bit_and_low, bit_and_split, bit_and_field, bit_xor_split, bit_xor-lt, bit_xor-zero,
}
use xinix.Dynld.Hash.{gnu_hash_from, gnu_hash, svr4_step, svr4_hash_from, svr4_hash}

-- The bytes of a name as the digits of a number to the base 33, the last one lowest
abbrev pub digits_33 : List ℕ → ℕ
digits_33 [] = 0
digits_33 (c ∷ name) = c * 33 ^ length name + digits_33 name

reduced : (x p v : ℕ) → (u32 x * p + v) % 2 ^ 32 ≡ (x * p + v) % 2 ^ 32
reduced x p v =
    let whole : x * p + v ≡ x / 2 ^ 32 * p * 2 ^ 32 + (u32 x * p + v) =
      omega (arith, ap (λ (t : ℕ). t * p) (div-add-mod' x (2 ^ 32))) in
    rw whole (sym (mul-add-mod_self_right (x / 2 ^ 32 * p) (2 ^ 32) (u32 x * p + v)))

gnu_hash_from_lem :
    (name : List ℕ) (h : ℕ)
    → h < 2 ^ 32
    → gnu_hash_from name h ≡ (h * 33 ^ length name + digits_33 name) % 2 ^ 32
unfolding gnu_hash_from
gnu_hash_from_lem [] h small = omega arith
gnu_hash_from_lem (c ∷ name) h small =
    let p = 33 ^ length name in
    let step : u32 (u32 (u32 (h * 2 ^ 5) + h) + c) ≡ u32 (33 * h + c) = omega arith in
    let spread : (33 * h + c) * p + digits_33 name
        ≡ h * 33 ^ suc (length name) + (c * p + digits_33 name) =
      omega (arith, ap (λ (t : ℕ). h * t) (pow-suc 33 (length name))) in
    rw (step, gnu_hash_from)
      (gnu_hash_from_lem name (u32 (33 * h + c)) (omega arith)
        ∙ reduced (33 * h + c) p (digits_33 name)
        ∙ ap (λ (t : ℕ). t % 2 ^ 32) spread)

-- `gnu_hash` is the number that begins with 5381 and goes on with the bytes, to the base 33, modulo
-- 2^32.
pub gnu_hash_lem :
    (name : List ℕ) → gnu_hash name ≡ (5381 * 33 ^ length name + digits_33 name) % 2 ^ 32
unfolding gnu_hash
gnu_hash_lem name = gnu_hash_from_lem name 5381 (omega arith)

-- A digit of 16 and its complement have no bit in common.
complement_table : holds_below (λ p. bit_and p (15 - p) == 0) 16 ≡ true
unfolding holds_below
complement_table = refl

complement : (p : ℕ) → p < 16 → bit_and p (15 - p) ≡ 0
complement p small =
    (==_iff _ 0).0 (holds_below_lem (λ q. bit_and q (15 - q) == 0) 16 small complement_table)

cleared : (p r : ℕ) → p < 16 → r < 2 ^ 28 → bit_and (p * 2 ^ 28 + r) (2 ^ 32 - 1 - p * 2 ^ 28) ≡ r
cleared p r small low =
    let mask : 2 ^ 32 - 1 - p * 2 ^ 28 ≡ (15 - p) * 2 ^ 28 + (2 ^ 28 - 1) = omega arith in
    rw mask (
      bit_and_split 28 p (15 - p) r (2 ^ 28 - 1) low (omega arith)
      ∙ omega (arith, complement p small, bit_and_low 28 r))

-- What a step of `svr4_hash` makes of the shifted hash: its top digit goes to the second lowest.
abbrev pub folded : ℕ → ℕ
folded t = bit_xor (t % 2 ^ 28) (t / 2 ^ 28 * 16)

folded-lt : (t : ℕ) → t < 2 ^ 32 → folded t < 2 ^ 28
folded-lt t word = bit_xor-lt 28 (t % 2 ^ 28) (t / 2 ^ 28 * 16) (omega arith) (omega arith)

-- The end of a step, from the shifted hash on
abbrev mixed : ℕ → ℕ
mixed t =
    let g = bit_and t 0xf000_0000 in
    bit_and (if g == 0 then t else bit_xor t (g / 2 ^ 24)) (2 ^ 32 - 1 - g)

xor_top :
    (p q : ℕ)
    → p < 16
    → q < 2 ^ 28
    → bit_xor (p * 2 ^ 28 + q) (p * 16) ≡ p * 2 ^ 28 + bit_xor q (p * 16)
xor_top p q small low =
    let padded : p * 16 ≡ 0 * 2 ^ 28 + p * 16 = omega arith in
    ap (bit_xor (p * 2 ^ 28 + q)) padded
    ∙ bit_xor_split 28 p 0 q (p * 16) low (omega arith)
    ∙ omega (arith, ap (λ (t : ℕ). t * 2 ^ 28) (bit_xor-zero p))

mixed_lem : (t : ℕ) → t < 2 ^ 32 → mixed t ≡ folded t
mixed_lem t word =
    let p = t / 2 ^ 28 in
    let q = t % 2 ^ 28 in
    let g : bit_and t 0xf000_0000 ≡ p * 2 ^ 28 = bit_and_field 28 4 t ∙ omega arith in
    let parts : t ≡ p * 2 ^ 28 + q = omega arith in
    let moved : p * 2 ^ 28 / 2 ^ 24 ≡ p * 16 = omega arith in
    let top : bit_xor t (p * 16) ≡ p * 2 ^ 28 + bit_xor q (p * 16) =
      ap (λ (x : ℕ). bit_xor x (p * 16)) parts ∙ xor_top p q (omega arith) (omega arith) in
    let joined : (if p * 2 ^ 28 == 0 then t else bit_xor t (p * 16))
        ≡ p * 2 ^ 28 + bit_xor q (p * 16) =
      elim (Bool-cases (p * 2 ^ 28 == 0)) [
        | inl none ↦
            let zero_top : p * 16 ≡ 0 = ground (arith, none) in
            rw none (sym (bit_xor-zero t) ∙ ap (bit_xor t) (sym zero_top) ∙ top)
        | inr some ↦ rw some top
      ] in
    let cut =
      cleared p (bit_xor q (p * 16)) (omega arith)
        (bit_xor-lt 28 q (p * 16) (omega arith) (omega arith)) in
    rw (g, moved, joined) cut

-- A step of `svr4_hash` shifts the hash by a digit of 16, adds the byte, and folds the top digit of
-- the word back.
pub svr4_step_lem : (h c : ℕ) → svr4_step h c ≡ folded (u32 (h * 16 + c))
svr4_step_lem h c =
    let same : u32 (u32 (h * 2 ^ 4) + c) ≡ u32 (h * 16 + c) = omega arith in
    mixed_lem (u32 (u32 (h * 2 ^ 4) + c)) (omega arith) ∙ ap folded same

svr4_hash_from-lt : (name : List ℕ) (h : ℕ) → h < 2 ^ 28 → svr4_hash_from name h < 2 ^ 28
unfolding svr4_hash_from
svr4_hash_from-lt [] h small = small
svr4_hash_from-lt (c ∷ name) h small =
    svr4_hash_from-lt name (svr4_step h c)
      (rw (svr4_step_lem h c) (folded-lt (u32 (h * 16 + c)) (omega arith)))

svr4_hash_from-append :
    (xs : List ℕ) (h c : ℕ)
    → svr4_hash_from (xs ++ (c ∷ [])) h ≡ folded (u32 (svr4_hash_from xs h * 16 + c))
unfolding svr4_hash_from
svr4_hash_from-append [] h c = svr4_step_lem h c
svr4_hash_from-append (x ∷ xs) h c = svr4_hash_from-append xs (svr4_step h x) c

-- The hash of any name is below 2^28, and a byte more shifts it by a digit of 16, as a word, with the
-- digit above the 28 bits folded back into the second lowest.
pub svr4_hash_lem :
    (name : List ℕ) (c : ℕ)
    → (svr4_hash name < 2 ^ 28)
      × (svr4_hash (name ++ (c ∷ [])) ≡ folded (u32 (svr4_hash name * 16 + c)))
unfolding svr4_hash
svr4_hash_lem name c = (svr4_hash_from-lt name 0 (omega arith), svr4_hash_from-append name 0 c)
