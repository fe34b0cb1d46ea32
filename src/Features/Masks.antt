-- ===== src/Features/Masks.antt =====
-- What the loop over the masks and the clears behind it leave.
use xinix.Base.{
  ℕ, zero, suc, ◌+◌, ◌≤◌, ◌<◌, ◌≡◌, refl, arith, Bool, true, Bool-cases, inl, inr, List, [], ◌∷◌,
  get_or, ◌==◌, bit_and, holds_below, holds_below_lem,
}
use xinix.Features.{
  Supported, not32, avx_feature_mask, avx512_feature_mask, amx_feature_mask, clear_unless,
  clear_masks, clear_all_masks, Clear, clears, run_clears,
}
use xinix.Features.Clears.{
  Part, Part-same, Part-trans, Cleared, clear_unless-Part, clear_unless-Cleared, Part-Cleared,
}

-- No bit is both in a mask and out of it.
abbrev is_apart : List ℕ → ℕ → Bool
is_apart masks i = bit_and (not32 (get_or masks i 0)) (get_or masks i 0) == 0

pub masks_apart :
    (masks : List ℕ)
    → holds_below (is_apart masks) 16 ≡ true
    → (i : ℕ) → i < 16
    → bit_and (not32 (get_or masks i 0)) (get_or masks i 0) ≡ 0
masks_apart masks all i small =
    let here = holds_below_lem (is_apart masks) 16 {v = i} small all in ground (arith, here)

avx_apart : holds_below (is_apart avx_feature_mask) 16 ≡ true
unfolding holds_below
avx_apart = refl

avx512_apart : holds_below (is_apart avx512_feature_mask) 16 ≡ true
unfolding holds_below
avx512_apart = refl

amx_apart : holds_below (is_apart amx_feature_mask) 16 ≡ true
unfolding holds_below
amx_apart = refl

-- The bits of the three masks in a word
abbrev pub MasksCleared : Supported → (ℕ → ℕ) → ℕ → Type 0
MasksCleared s a i =
    Cleared s.has_avx i (get_or avx_feature_mask i 0) a
    × Cleared s.has_avx512 i (get_or avx512_feature_mask i 0) a
    × Cleared s.has_amx i (get_or amx_feature_mask i 0) a

pub Part-MasksCleared :
    (s : Supported) (a b : ℕ → ℕ) (i : ℕ)
    → Part a b
    → i < 16
    → MasksCleared s a i
    → MasksCleared s b i
Part-MasksCleared s a b i parts small (avx, avx512, amx) = (
  Part-Cleared s.has_avx a b i (get_or avx_feature_mask i 0) parts small avx,
  Part-Cleared s.has_avx512 a b i (get_or avx512_feature_mask i 0) parts small avx512,
  Part-Cleared s.has_amx a b i (get_or amx_feature_mask i 0) parts small amx,
)

module _ (s : Supported) where
  clear_masks-Part : (i : ℕ) (a : ℕ → ℕ) → Part a (clear_masks s i a)
  clear_masks-Part i a =
      let first = clear_unless s.has_avx i (get_or avx_feature_mask i 0) a in
      let second = clear_unless s.has_avx512 i (get_or avx512_feature_mask i 0) first in
      Part-trans a second (clear_masks s i a)
        (Part-trans a first second (clear_unless-Part s.has_avx i (get_or avx_feature_mask i 0) a)
          (clear_unless-Part s.has_avx512 i (get_or avx512_feature_mask i 0) first))
        (clear_unless-Part s.has_amx i (get_or amx_feature_mask i 0) second)

  clear_masks-MasksCleared : (i : ℕ) (a : ℕ → ℕ) → i < 16 → MasksCleared s (clear_masks s i a) i
  clear_masks-MasksCleared i a small =
      let avx = get_or avx_feature_mask i 0 in
      let avx512 = get_or avx512_feature_mask i 0 in
      let amx = get_or amx_feature_mask i 0 in
      let first = clear_unless s.has_avx i avx a in
      let second = clear_unless s.has_avx512 i avx512 first in
      let last = clear_unless s.has_amx i amx second in
      let amx-Part = clear_unless-Part s.has_amx i amx second in
      let rest-Part =
        Part-trans first second last (clear_unless-Part s.has_avx512 i avx512 first) amx-Part in
      (
        Part-Cleared s.has_avx first last i avx rest-Part small (
            clear_unless-Cleared s.has_avx i avx a
              (masks_apart avx_feature_mask avx_apart i small)),
        Part-Cleared s.has_avx512 second last i avx512 amx-Part small (
            clear_unless-Cleared s.has_avx512 i avx512 first
              (masks_apart avx512_feature_mask avx512_apart i small)),
        clear_unless-Cleared s.has_amx i amx second
            (masks_apart amx_feature_mask amx_apart i small),
      )

  pub clear_all_masks-Part : (more i : ℕ) (a : ℕ → ℕ) → Part a (clear_all_masks s more i a)
  unfolding clear_all_masks
  clear_all_masks-Part zero i a = Part-same a
  clear_all_masks-Part (suc more) i a =
      let next = clear_masks s i a in
      Part-trans a next (clear_all_masks s more (i + 1) next) (clear_masks-Part i a)
        (clear_all_masks-Part more (i + 1) next)

  pub clear_all_masks-MasksCleared :
      (more i j : ℕ) (a : ℕ → ℕ)
      → i + more ≤ 16
      → i ≤ j
      → j < i + more
      → MasksCleared s (clear_all_masks s more i a) j
  unfolding clear_all_masks
  clear_all_masks-MasksCleared zero i j a room from to = absurd (omega (arith, from, to))
  clear_all_masks-MasksCleared (suc more) i j a room from to =
      let next = clear_masks s i a in
      elim (Bool-cases (j == i)) [
        | inl here ↦
            let at_i : j ≡ i = ground (arith, here) in
            rw at_i (
              Part-MasksCleared s next (clear_all_masks s more (i + 1) next) i
                (clear_all_masks-Part more (i + 1) next) (omega (arith, room))
                (clear_masks-MasksCleared i a (omega (arith, room))))
        | inr away ↦
            clear_all_masks-MasksCleared more (i + 1) j next (omega (arith, room))
              (ground (arith, from, away)) (omega (arith, to))
      ]

-- Every clear of a list is done, and is one of the first 16 words.
unfoldable pub AllCleared : List Clear → (ℕ → ℕ) → Type 0
AllCleared [] a = Unit
AllCleared (c ∷ cs) a = Cleared c.keep c.word c.mask a × AllCleared cs a

pub AllFine : List Clear → Type 0
AllFine [] = Unit
AllFine (c ∷ cs) = (c.word < 16) × (bit_and (not32 c.mask) c.mask ≡ 0) × AllFine cs

pub run_clears-Part : (cs : List Clear) (a : ℕ → ℕ) → Part a (run_clears cs a)
unfolding run_clears
run_clears-Part [] a = Part-same a
run_clears-Part (c ∷ cs) a =
    let next = clear_unless c.keep c.word c.mask a in
    Part-trans a next (run_clears cs next) (clear_unless-Part c.keep c.word c.mask a)
      (run_clears-Part cs next)

pub run_clears-AllCleared :
    (cs : List Clear) (a : ℕ → ℕ) → AllFine cs → AllCleared cs (run_clears cs a)
unfolding run_clears AllCleared AllFine
run_clears-AllCleared [] a fine = tt
run_clears-AllCleared (c ∷ cs) a (small, apart, fine) =
    let next = clear_unless c.keep c.word c.mask a in
    (
      Part-Cleared c.keep next (run_clears cs next) c.word c.mask (run_clears-Part cs next) small
          (clear_unless-Cleared c.keep c.word c.mask a apart),
      run_clears-AllCleared cs next fine,
    )

pub clears-AllFine : (s : Supported) → AllFine (clears s)
unfolding AllFine
clears-AllFine s = (
  omega arith,
  refl,
  (
    omega arith,
    refl,
    (
      omega arith,
      refl,
      (
        omega arith,
        refl,
        (omega arith, refl, (omega arith, refl, (omega arith, refl, (omega arith, refl, tt)))),
      ),
    ),
  ),
)
